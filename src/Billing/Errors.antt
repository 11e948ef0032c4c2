-- ===== src/Billing/Errors.antt =====
-- internal/billing/errors.go. An error carries its kind and the format of its message; the
-- arguments that complete the message are left out.
use cpa_plugin_key_billing_m.Prelude.{
  String, ◌≡◌, refl, ◌⊎◌, inl, inr, Bool, true, false, if◌then◌else◌,
}

pub data ErrorKind : Type 0 where
  kind_invalid kind_not_found kind_conflict kind_other : ErrorKind

pub record Error : Type 0 where
  pub kind : ErrorKind
  pub format : String

abbrev pub invalid : String → Error
invalid f = record { kind = kind_invalid; format = f }

abbrev pub not_found : String → Error
not_found f = record { kind = kind_not_found; format = f }

abbrev pub conflict : String → Error
conflict f = record { kind = kind_conflict; format = f }

-- fmt.Errorf and the errors of other packages
abbrev pub other_error : String → Error
other_error f = record { kind = kind_other; format = f }

-- a pair `(T, error)`
pub data Result {ℓ} (T : Type ℓ) : Type ℓ where
  ok : T → Result T
  err : Error → Result T

pub Result-cases {ℓ} :
    {A : Type ℓ} (r : Result A) → ((a : A) × (r ≡ ok a)) ⊎ ((e : Error) × (r ≡ err e))
Result-cases (ok a) = inl (a, refl)
Result-cases (err e) = inr (e, refl)

-- `if err != nil { return …, err }` between two steps, with and without the value of the first
infixl 5 ◌>>◌ ◌>>=◌
abbrev pub ◌>>=◌ {κ ℓ} : {T : Type κ} {U : Type ℓ} → Result T → (T → Result U) → Result U
err x >>= next = err x
ok value >>= next = next value

abbrev pub ◌>>◌ {κ} : {U : Type κ} → Result (Unit {0}) → Result U → Result U
first >> second = first >>= λ _. second

-- a chain that ends well has taken each step
pub bind_ok {κ ℓ} :
    {T : Type κ} {U : Type ℓ} (r : Result T) (next : T → Result U) (u : U)
    → (r >>= next) ≡ ok u
    → (t : T) × (r ≡ ok t) × (next t ≡ ok u)
bind_ok (ok t) next u h = (t, refl, h)
bind_ok (err e) next u h = absurd (cc h)

pub unless_ok {ℓ} :
    {T : Type ℓ} (b : Bool) (e : Error) (r : Result T) (t : T)
    → (if b then err e else r) ≡ ok t
    → (b ≡ false) × (r ≡ ok t)
unless_ok true e r t h = absurd (cc h)
unless_ok false e r t h = (refl, h)

pub when_ok {ℓ} :
    {T : Type ℓ} (b : Bool) (e : Error) (r : Result T) (t : T)
    → (if b then r else err e) ≡ ok t
    → (b ≡ true) × (r ≡ ok t)
when_ok true e r t h = (refl, h)
when_ok false e r t h = absurd (cc h)

pub ok_injective {ℓ} : {T : Type ℓ} {s t : T} → ok s ≡ ok t → s ≡ t
ok_injective h = cc h

-- the chain ends without an error
abbrev pub Ends {ℓ} : {T : Type ℓ} → Result T → Type ℓ
Ends {T = T} r = (t : T) × (r ≡ ok t)
