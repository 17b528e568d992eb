-- ===== src/MapStruct.antt =====
-- lib/util/mapstruct/mapstruct.go. The decoder of mapstructure and `time.Parse` are arguments.
mod Tests
use free5gc_workspace.Prelude.{ℕ, Bool, true, false, List, []}
use free5gc_workspace.Prelude.Outcome.{Outcome, returns, fails, panics, ◌>>=◌}
use free5gc_workspace.Text.Decimal.{Bytes, codes}

-- A type, as far as the hook looks at it.
pub data ReflectType : Type 0 where
  time_type string_type other_type : ReflectType

pub data Value (Time Other : Type 0) : Type 0 where
  string_value : Bytes → Value Time Other
  time_value : Time → Value Time Other
  other_value : Other → Value Time Other

module _ {Time Other E : Type 0} (parse_rfc3339 : Bytes → Outcome E Time) where
  -- The assertion `data.(string)`.
  as_string : Value Time Other → Outcome E Bytes
  as_string (string_value s) = returns s
  as_string (time_value t) = panics
  as_string (other_value v) = panics

  -- The hook that Decode gives to the decoder.
  unfoldable pub string_to_date_time_hook :
      ReflectType → ReflectType → Value Time Other → Outcome E (Value Time Other)
  unfolding as_string
  string_to_date_time_hook string_type time_type value =
      as_string value >>= λ s. parse_rfc3339 s >>= λ t. returns (time_value t)
  string_to_date_time_hook string_type string_type value = returns value
  string_to_date_time_hook string_type other_type value = returns value
  string_to_date_time_hook time_type to value = returns value
  string_to_date_time_hook other_type to value = returns value

  -- `Decode`: a decoder is made with the hook, and decodes the input.
  unfoldable pub decode_input :
      {Input Output Decoder : Type 0}
      → ((ReflectType → ReflectType → Value Time Other → Outcome E (Value Time Other))
          → Outcome E Decoder)
      → (Decoder → Input → Outcome E Output)
      → Input
      → Outcome E Output
  unfolding string_to_date_time_hook
  decode_input new_decoder run input =
      new_decoder string_to_date_time_hook >>= λ decoder. run decoder input
