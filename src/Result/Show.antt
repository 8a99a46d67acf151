-- ===== src/Result/Show.antt =====
-- `Display` of src/error.rs.
use nanofish.Prelude.{◌++◌, Bytes, codes}
use nanofish.Result.{
  Error, invalid_url, dns_error, ip_address_empty, connection_error, tcp_error, no_response,
  invalid_response, tls_error, unsupported_scheme, header_error, invalid_status_code,
  buffer_overflow,
}

-- `Display::fmt`: the text that is written.
unfoldable pub fmt : Error → Bytes
fmt invalid_url = codes "Invalid URL"
fmt dns_error = codes "DNS resolution failed"
fmt ip_address_empty = codes "No IP addresses returned by DNS"
fmt connection_error = codes "Failed to establish TCP connection"
fmt tcp_error = codes "TCP communication error"
fmt no_response = codes "No response received from server"
fmt (invalid_response msg) = codes "Invalid response: " ++ codes msg
fmt (tls_error e) = codes "TLS error occurred"
fmt (unsupported_scheme scheme) = codes "Unsupported scheme: " ++ codes scheme
fmt (header_error msg) = codes "Header error: " ++ codes msg
fmt invalid_status_code = codes "Invalid status code"
fmt buffer_overflow = codes "Buffer overflow"
