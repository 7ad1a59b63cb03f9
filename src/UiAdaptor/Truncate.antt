-- ===== src/UiAdaptor/Truncate.antt =====
-- `truncate_if_text_too_long` of ioppytest/ui_adaptor/message_translators.py.
pub mod Fits
use ioppytest.Prelude.{
  ℕ, zero, suc, ◌*◌, Bool, true, false, List, [], ◌∷◌, ◌++◌, length, ltb, Option, none, some, Text,
  codes, ◌==◌, if◌then◌else◌, Result, ok, raised, type_error,
}
use ioppytest.Prelude.Calls.{◌>>=◌}
use ioppytest.UiAdaptor.Messages.{Value, Field, UiMessage, paragraph}

-- `STDOUT_MAX_TEXT_LENGTH_PER_LINE * 100`
abbrev pub max_text_length : ℕ
max_text_length = 120 * 100

abbrev pub warning : Text
warning = codes "(WARNING: this message has been truncated)"

-- `s[:n]`
unfoldable pub take : ℕ → Text → Text
take zero s = []
take (suc n) [] = []
take (suc n) (c ∷ s) = c ∷ take n s

abbrev pub is_paragraph : Option Text → Bool
is_paragraph none = false
is_paragraph (some type) = type == codes "p"

-- A field without a value raises `KeyError`, which keeps it; `len` of no text is a `TypeError`.
unfoldable pub truncate_value : Field → Option Value → Result (List Field)
unfolding take
truncate_value f none = ok (f ∷ [])
truncate_value f (some (Value.text v)) =
    if ltb max_text_length (length v)
    then ok (paragraph (take max_text_length v) ∷ paragraph warning ∷ [])
    else ok (f ∷ [])
truncate_value f (some (Value.flag b)) = raised type_error
truncate_value f (some Value.opaque) = raised type_error

unfoldable pub truncate_field : Field → Result (List Field)
unfolding truncate_value
truncate_field f = if is_paragraph f.type then truncate_value f f.value else ok (f ∷ [])

unfoldable pub truncate_fields : List Field → Result (List Field)
unfolding truncate_field
truncate_fields [] = ok []
truncate_fields (f ∷ rest) =
    truncate_field f >>= λ fs. truncate_fields rest >>= λ later. ok (fs ++ later)

unfoldable pub truncate_if_text_too_long : UiMessage → Result UiMessage
unfolding truncate_fields
truncate_if_text_too_long m =
    truncate_fields m.fields >>= λ fields. ok (record m { fields = fields })
