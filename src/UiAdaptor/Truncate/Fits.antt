-- ===== src/UiAdaptor/Truncate/Fits.antt =====
-- What truncation leaves fits.
use ioppytest.Prelude.{
  ℕ, zero, suc, ◌≤◌, ◌≡◌, refl, inl, inr, Bool, true, false, List, [], ◌∷◌, ◌++◌, length, ltb,
  Option, none, some, Text, All, Result, ok, raised, Bool-cases, text_eq, arith,
}
use ioppytest.Prelude.Calls.{◌>>=◌}
use ioppytest.UiAdaptor.Messages.{Value, Field, UiMessage, paragraph}
use ioppytest.UiAdaptor.Truncate.{
  max_text_length, warning, take, is_paragraph, truncate_value, truncate_field, truncate_fields,
  truncate_if_text_too_long,
}

abbrev pub TextFits : Option Value → Type 0
TextFits (some (Value.text v)) = length v ≤ max_text_length
TextFits _ = Unit

-- The text of a paragraph is within the bound.
abbrev pub FitsAs : Bool → Option Value → Type 0
FitsAs true v = TextFits v
FitsAs false v = Unit

abbrev pub Fits : Field → Type 0
Fits f = FitsAs (is_paragraph f.type) f.value

ltb-false : (s : Text) → ltb max_text_length (length s) ≡ false → length s ≤ max_text_length
ltb-false s h = ground arith

length-take : (n : ℕ) (s : Text) → length (take n s) ≤ n
unfolding take
length-take zero s = omega arith
length-take (suc n) [] = omega arith
length-take (suc n) (c ∷ s) = omega (arith, length-take n s)

All-append : (xs ys : List Field) → All Fits xs → All Fits ys → All Fits (xs ++ ys)
All-append [] ys h k = k
All-append (x ∷ xs) ys (p, h) k = (p, All-append xs ys h k)

cut_Fits : (v : Text) → All Fits (paragraph (take max_text_length v) ∷ paragraph warning ∷ [])
unfolding text_eq
cut_Fits v = (length-take max_text_length v, (omega arith, tt))

-- What a truncation gives: fields that fit, and no exception.
abbrev Yields : Result (List Field) → Type 0
Yields (ok fs) = All Fits fs
Yields (raised e) = ⊥

-- A paragraph has a text to display, or nothing.
abbrev pub TextualAs : Bool → Option Value → Type 0
TextualAs true (some (Value.flag b)) = ⊥
TextualAs true (some Value.opaque) = ⊥
TextualAs _ _ = Unit

abbrev pub IsTextual : Field → Type 0
IsTextual f = TextualAs (is_paragraph f.type) f.value

one_Fits :
    (f : Field) (b : Bool) (v : Option Value)
    → is_paragraph f.type ≡ b
    → f.value ≡ v
    → FitsAs b v
    → All Fits (f ∷ [])
one_Fits f b v p e h = (rw p (rw e h), tt)

truncate_value-Yields :
    (f : Field) (v : Option Value)
    → is_paragraph f.type ≡ true
    → f.value ≡ v
    → TextualAs true v
    → Yields (truncate_value f v)
unfolding truncate_value
truncate_value-Yields f none p e t = one_Fits f true none p e tt
truncate_value-Yields f (some (Value.text s)) p e t =
    elim (Bool-cases (ltb max_text_length (length s))) [
      | inl long ↦ rw long (cut_Fits s)
      | inr short ↦ rw short (one_Fits f true (some (Value.text s)) p e (ltb-false s short))
    ]
truncate_value-Yields f (some (Value.flag b)) p e t = absurd t
truncate_value-Yields f (some Value.opaque) p e t = absurd t

truncate_field-Yields : (f : Field) → IsTextual f → Yields (truncate_field f)
unfolding truncate_field
truncate_field-Yields f t = elim (Bool-cases (is_paragraph f.type)) [
  | inl p ↦ rw p (truncate_value-Yields f f.value p refl (rw p at t))
  | inr p ↦ rw p (one_Fits f false f.value p refl tt)
]

append-Yields :
    (r s : Result (List Field))
    → Yields r
    → Yields s
    → Yields (r >>= λ fs. s >>= λ later. ok (fs ++ later))
append-Yields (ok fs) (ok later) h k = All-append fs later h k
append-Yields (ok fs) (raised e) h k = absurd k
append-Yields (raised e) s h k = absurd h

truncate_fields-Yields : (fs : List Field) → All IsTextual fs → Yields (truncate_fields fs)
unfolding truncate_fields
truncate_fields-Yields [] t = tt
truncate_fields-Yields (f ∷ rest) (t, ts) =
    append-Yields (truncate_field f) (truncate_fields rest) (truncate_field-Yields f t)
      (truncate_fields-Yields rest ts)

-- A message whose paragraphs display text is truncated without an exception; then every paragraph
-- is within the bound, and the rest of the message is as it was.
pub truncate_if_text_too_long-Fits :
    (m : UiMessage)
    → All IsTextual m.fields
    → (fields : List Field) × (truncate_if_text_too_long m ≡ ok (record m { fields = fields }))
      × All Fits fields
unfolding truncate_if_text_too_long
truncate_if_text_too_long-Fits m t =
    go (truncate_fields m.fields) (truncate_fields-Yields m.fields t)
  where
    go :
        (r : Result (List Field))
        → Yields r
        → (fields : List Field) × ((r >>= λ fields. ok (record m { fields = fields }))
            ≡ ok (record m { fields = fields }))
          × All Fits fields
    go (ok fs) h = (fs, refl, h)
    go (raised x) h = absurd h
