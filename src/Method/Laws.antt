-- ===== src/Method/Laws.antt =====
-- Names of methods are read back, and nothing else is read.
use nanofish.Method.{
  HttpMethod, get, post, put, delete, patch, connect, options, trace, head, as_str, try_from_str,
}
use nanofish.Prelude.{
  Option, some, ◌≡◌, ◌↔◌, refl, Bytes, bytes_eq, bytes_eq_iff, Bool-cases, inl, inr, if◌then◌else◌,
  sym, ◌∙◌, ap,
}

try_from_str-as_str : (m : HttpMethod) → try_from_str (as_str m) ≡ some m
unfolding try_from_str as_str
try_from_str-as_str get = refl
try_from_str-as_str _ = refl

-- One arm of the match: if it is not taken, the answer came from the arms below.
arm :
    (value name : Bytes) (m : HttpMethod) (later : Option HttpMethod) (k : HttpMethod)
    → as_str m ≡ name
    → (if bytes_eq value name then some m else later) ≡ some k
    → (later ≡ some k → value ≡ as_str k)
    → value ≡ as_str k
arm value name m later k e h below = elim (Bool-cases (bytes_eq value name)) [
  | inl same ↦
      let taken : some m ≡ some k = rw same at h in
      (bytes_eq_iff value name).0 same ∙ sym e ∙ ap as_str cc
  | inr other ↦ below (rw other at h)
]

as_str_of_try_from_str :
    (value : Bytes) (k : HttpMethod) → try_from_str value ≡ some k → value ≡ as_str k
unfolding try_from_str as_str
as_str_of_try_from_str value k h = arm value _ get _ k refl h λ h. arm value _ post _ k refl h λ h.
    arm value _ put _ k refl h λ h. arm value _ delete _ k refl h λ h.
      arm value _ patch _ k refl h λ h. arm value _ head _ k refl h λ h.
        arm value _ options _ k refl h
          λ h. arm value _ trace _ k refl h λ h. arm value _ connect _ k refl h λ h. cc

-- A text is read as method `m` exactly when it is the name of `m`.
pub try_from_str_iff :
    (value : Bytes) (m : HttpMethod) → (try_from_str value ≡ some m) ↔ (value ≡ as_str m)
try_from_str_iff value m =
    (as_str_of_try_from_str value m, λ e. ap try_from_str e ∙ try_from_str-as_str m)
