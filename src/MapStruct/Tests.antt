-- ===== src/MapStruct/Tests.antt =====
-- The hook on a text.
use free5gc_workspace.Prelude.{ℕ, ◌≡◌, refl, [], ◌∷◌}
use free5gc_workspace.Prelude.Outcome.{Outcome, returns, fails}
use free5gc_workspace.Text.Decimal.{Bytes}
use free5gc_workspace.MapStruct.{
  time_type, string_type, other_type, string_value, time_value, string_to_date_time_hook,
  decode_input,
}

-- Only the empty text is no time.
abbrev parse : Bytes → Outcome ℕ ℕ
parse [] = fails 1
parse (c ∷ s) = returns c

hook_time :
    string_to_date_time_hook {Other = Unit {0}} parse string_type time_type (string_value (9 ∷ []))
    ≡ returns (time_value 9)
unfolding string_to_date_time_hook
hook_time = refl

hook_text :
    string_to_date_time_hook {Other = Unit {0}} parse string_type other_type (string_value [])
    ≡ returns (string_value [])
unfolding string_to_date_time_hook
hook_text = refl

decode_fails :
    decode_input {Other = Unit {0}} parse
      (λ hook. returns hook)
      (λ hook input. hook string_type time_type input)
      (string_value [])
    ≡ fails 1
unfolding decode_input
decode_fails = refl
