-- ===== src/Model/Ctp/Normalize.antt =====
-- `normalize_order_ref` of crates/model/src/ctp.rs: the key under which an order is registered and
-- looked up.
use Prim.Native.Char.{Char, code}
use Prim.Native.String.{[], ◌∷◌}
use ctp_system.Prelude.{
  ℕ, zero, suc, ◌≤◌, String, ◌≡◌, refl, ap, Bool, true, ◌&&◌, ◌||◌, arith, leb, if◌then◌else◌,
  Bool-cases, inl, inr, ◌∙◌,
}

-- char::is_ascii_alphanumeric
unfoldable pub is_ascii_alphanumeric : Char → Bool
is_ascii_alphanumeric ch =
    let c = code ch in
    (leb b'0' c && leb c b'9') || ((leb b'A' c && leb c b'Z') || (leb b'a' c && leb c b'z'))

filter : (Char → Bool) → String → String
filter p [] = []
filter p (c ∷ s) = let rest = filter p s in if p c then c ∷ rest else rest

take : ℕ → String → String
take zero s = []
take (suc n) [] = []
take (suc n) (c ∷ s) = c ∷ take n s

-- At most 12 ASCII letters and digits of the id.
unfoldable pub normalize_order_ref : String → String
unfolding filter take is_ascii_alphanumeric
normalize_order_ref value = take 12 (filter is_ascii_alphanumeric value)

abbrev All : (Char → Bool) → String → Type 0
All p [] = Unit
All p (c ∷ s) = (p c ≡ true) × All p s

abbrev chars : String → ℕ
chars [] = 0
chars (c ∷ s) = suc (chars s)

-- What CTP accepts as an OrderRef: at most 12 characters, all of them ASCII letters or digits.
pub record IsOrderRef (s : String) : Type 0 where
  pub short : chars s ≤ 12
  pub alphanumeric : All is_ascii_alphanumeric s

All-filter : (p : Char → Bool) (s : String) → All p (filter p s)
unfolding filter
All-filter p [] = tt
All-filter p (c ∷ s) = elim (Bool-cases (p c)) [
  | inl e ↦ rw e (e, All-filter p s)
  | inr e ↦ rw e (All-filter p s)
]

All-take : (p : Char → Bool) (n : ℕ) (s : String) → All p s → All p (take n s)
unfolding take
All-take p zero s h = tt
All-take p (suc n) [] h = tt
All-take p (suc n) (c ∷ s) h = (h.0, All-take p n s h.1)

filter_of_All : (p : Char → Bool) (s : String) → All p s → filter p s ≡ s
unfolding filter
filter_of_All p [] h = refl
filter_of_All p (c ∷ s) h = rw (h.0) (ap (λ r. c ∷ r) (filter_of_All p s h.1))

chars-take : (n : ℕ) (s : String) → chars (take n s) ≤ n
unfolding take
chars-take zero s = omega arith
chars-take (suc n) [] = omega arith
chars-take (suc n) (c ∷ s) = omega (arith, chars-take n s)

take_of_short : (n : ℕ) (s : String) → chars s ≤ n → take n s ≡ s
unfolding take
take_of_short zero [] h = refl
take_of_short zero (c ∷ s) h = absurd (omega arith)
take_of_short (suc n) [] h = refl
take_of_short (suc n) (c ∷ s) h = ap (λ r. c ∷ r) (take_of_short n s (omega arith))

pub normalize_of_IsOrderRef : (s : String) → IsOrderRef s → normalize_order_ref s ≡ s
unfolding normalize_order_ref
normalize_of_IsOrderRef s h =
    ap (take 12) (filter_of_All is_ascii_alphanumeric s h.alphanumeric) ∙ take_of_short 12 s h.short

-- Every key has at most 12 characters, all of them ASCII letters or digits.
pub normalize-IsOrderRef : (s : String) → IsOrderRef (normalize_order_ref s)
unfolding normalize_order_ref
normalize-IsOrderRef s = record {
  short = chars-take 12 (filter is_ascii_alphanumeric s);
  alphanumeric = All-take is_ascii_alphanumeric 12 _ (All-filter is_ascii_alphanumeric s);
}

-- A key is its own key.
pub normalize_order_ref-idempotent :
    (s : String) → normalize_order_ref (normalize_order_ref s) ≡ normalize_order_ref s
normalize_order_ref-idempotent s = normalize_of_IsOrderRef _ (normalize-IsOrderRef s)
