-- ===== src/Result.antt =====
-- src/error.rs, and `Result` as the functions of the library return it. The variant `TlsError`
-- exists only with the feature `tls`; the error of the crate embedded-tls within it, which the source
-- only hands on, is a number that stands for it.
pub mod Show
pub mod Ends
pub mod Ending
use Prim.Native.String.{String}
use nanofish.Prelude.{ℕ, Bool, true, false, Option, none, some, ◌≡◌, refl, ◌⊎◌, inl, inr}

-- `enum Error`.
pub data Error : Type 0 where
  invalid_url dns_error ip_address_empty connection_error tcp_error no_response : Error
  invalid_response : String → Error
  tls_error : ℕ → Error
  unsupported_scheme : String → Error
  header_error : String → Error
  invalid_status_code buffer_overflow : Error

-- A `panic` is a Rust panic: a slice out of range, or an arithmetic overflow that a slice then
-- meets. `out_of_fuel` is no behaviour of the code: a loop's model returns it where its fuel is
-- used up, and the theorems on the loops show that it never is.
pub data Result {ℓ} (A : Type ℓ) : Type ℓ where
  panic out_of_fuel : Result A
  err : Error → Result A
  ok : A → Result A

-- `?`: a value goes on to `next`, and anything else is the result of the whole.
abbrev pub ◌>>=◌ {ℓ κ} : {A : Type ℓ} {B : Type κ} (now : Result A) (next : A → Result B) → Result B
panic >>= next = panic
out_of_fuel >>= next = out_of_fuel
err e >>= next = err e
ok value >>= next = next value

abbrev pub ◌>>◌ {κ} : {B : Type κ} (check : Result (Unit {0})) (next : Result B) → Result B
check >> next = check >>= λ done. next

infixl 5 ◌>>=◌ ◌>>◌
-- `Option::ok_or`, and `map_err` that puts one error in place of any other.
abbrev pub ok_or {ℓ} : {A : Type ℓ} → Option A → Error → Result A
ok_or none e = err e
ok_or (some a) e = ok a

-- A check of the run-time's own, such as the bounds of a slice.
abbrev pub assert : Bool → Result (Unit {0})
assert true = ok tt
assert false = panic

pub >>=-assoc {ℓ κ ι} :
    {A : Type ℓ} {B : Type κ} {C : Type ι} (m : Result A) (f : A → Result B) (g : B → Result C)
    → (m >>= f >>= g) ≡ (m >>= λ a. f a >>= g)
>>=-assoc (ok a) f g = refl
>>=-assoc (err e) f g = refl
>>=-assoc panic f g = refl
>>=-assoc out_of_fuel f g = refl

pub Result-cases {ℓ} :
    {A : Type ℓ} (m : Result A)
    → ((a : A) × (m ≡ ok a)) ⊎ ((e : Error) × (m ≡ err e)) ⊎ (m ≡ panic) ⊎ (m ≡ out_of_fuel)
Result-cases (ok a) = inl (a, refl)
Result-cases (err e) = inr (inl (e, refl))
Result-cases panic = inr (inr (inl refl))
Result-cases out_of_fuel = inr (inr (inr refl))

pub >>=-ok {ℓ} : {A : Type ℓ} (m : Result A) → (m >>= λ a. ok a) ≡ m
>>=-ok (ok a) = refl
>>=-ok (err e) = refl
>>=-ok panic = refl
>>=-ok out_of_fuel = refl
