-- ===== src/Logger/Gin/Secrets.antt =====
-- What is logged of the credentials of a request.
use free5gc_workspace.Prelude.{
  ◌≡◌, refl, ap, sym, ◌∙◌, Bool, true, false, List, [], ◌∷◌, ◌++◌, map, All, inr,
}
use free5gc_workspace.Text.Decimal.{Bytes, codes}
use free5gc_workspace.Text.Words.{text_eq, split_at, split_from, join, contains_byte, Lacks}
use free5gc_workspace.Text.Search.{
  split_crlf, crlf, split_crlf-join, contains_byte-Lacks, Lacks-append,
}
use free5gc_workspace.Logger.Gin.{
  Gin, Panic, Line, in_panic, Handler, redact, redacted, is_broken_pipe, gin_recover,
}

-- The text of a request with a header of credentials, from its lines before and after that header.
abbrev pub with_credentials : Bytes → List Bytes → List Bytes → Bytes → Bytes
with_credentials line before after value =
    join crlf (line ∷ (before ++ (codes "Authorization:" ++ value) ∷ after))

redact-credentials :
    (value : Bytes) → redact (codes "Authorization:" ++ value) ≡ codes "Authorization: *"
unfolding redact split_at split_from text_eq
redact-credentials value = refl

Lacks-credentials : (value : Bytes) → Lacks 13 value → Lacks 13 (codes "Authorization:" ++ value)
unfolding contains_byte
Lacks-credentials value h =
    Lacks-append 13 (codes "Authorization:") value
      (contains_byte-Lacks 13 (codes "Authorization:") refl) h

All-insert :
    (before after : List Bytes) (x : Bytes)
    → All (Lacks 13) before
    → Lacks 13 x
    → All (Lacks 13) after
    → All (Lacks 13) (before ++ x ∷ after)
All-insert [] after x hb hx ha = (hx, ha)
All-insert (b ∷ before) after x hb hx ha = (hb.0, All-insert before after x hb.1 hx ha)

map-redact :
    (before after : List Bytes) (v w : Bytes)
    → map redact (before ++ (codes "Authorization:" ++ v) ∷ after)
      ≡ map redact (before ++ (codes "Authorization:" ++ w) ∷ after)
map-redact [] after v w =
    ap (λ x. x ∷ map redact after) (redact-credentials v ∙ sym (redact-credentials w))
map-redact (b ∷ before) after v w = ap (λ l. redact b ∷ l) (map-redact before after v w)

split_crlf-with_credentials :
    (line : Bytes) (before after : List Bytes) (v : Bytes)
    → All (Lacks 13) (line ∷ before)
    → All (Lacks 13) after
    → Lacks 13 v
    → split_crlf (with_credentials line before after v)
      ≡ line ∷ (before ++ (codes "Authorization:" ++ v) ∷ after)
split_crlf-with_credentials line before after v hb ha hv =
    split_crlf-join line (before ++ (codes "Authorization:" ++ v) ∷ after)
      (hb.0, All-insert before after (codes "Authorization:" ++ v) hb.1 (Lacks-credentials v hv) ha)

redacted-with_credentials :
    (line : Bytes) (before after : List Bytes) (v w : Bytes)
    → All (Lacks 13) (line ∷ before)
    → All (Lacks 13) after
    → Lacks 13 v
    → Lacks 13 w
    → redacted (with_credentials line before after v)
      ≡ redacted (with_credentials line before after w)
unfolding redacted
redacted-with_credentials line before after v w hb ha hv hw =
    ap (λ l. join crlf (map redact l)) (split_crlf-with_credentials line before after v hb ha hv)
    ∙ ap (λ l. join crlf (redact line ∷ l)) (map-redact before after v w)
    ∙ ap (λ l. join crlf (map redact l))
        (sym (split_crlf-with_credentials line before after w hb ha hw))

logged_same :
    (gin : Gin) (has_log is_debugging : Bool) (logs : List (Line gin.Err)) (p : Panic)
    (c d d' : gin.Context) (t u : Bytes)
    → is_broken_pipe p ≡ false
    → redacted t ≡ redacted u
    → gin.dump_request d ≡ inr t
    → gin.dump_request d' ≡ inr u
    → (gin_recover gin has_log is_debugging (λ _. (logs, in_panic p d)) c).0
      ≡ (gin_recover gin has_log is_debugging (λ _. (logs, in_panic p d')) c).0
unfolding gin_recover
logged_same gin false is_debugging logs p c d d' t u whole same hd hd' = refl
logged_same gin true false logs p c d d' t u whole same hd hd' = rw (hd, hd', whole) refl
logged_same gin true true logs p c d d' t u whole same hd hd' = rw (hd, hd', whole, same) refl

-- Two requests whose dumps differ in the value of the header of credentials alone, and whose handlers
-- panic with the same value, which is not that of a broken connection, are logged in the same way.
pub gin_recover_hides :
    (gin : Gin) (has_log is_debugging : Bool) (next : Handler gin) (logs : List (Line gin.Err))
    (p : Panic) (c c' d d' : gin.Context) (line : Bytes) (before after : List Bytes) (v w : Bytes)
    → All (Lacks 13) (line ∷ before)
    → All (Lacks 13) after
    → Lacks 13 v
    → Lacks 13 w
    → next c ≡ (logs, in_panic p d)
    → next c' ≡ (logs, in_panic p d')
    → is_broken_pipe p ≡ false
    → gin.dump_request d ≡ inr (with_credentials line before after v)
    → gin.dump_request d' ≡ inr (with_credentials line before after w)
    → (gin_recover gin has_log is_debugging next c).0
      ≡ (gin_recover gin has_log is_debugging next c').0
unfolding gin_recover
gin_recover_hides gin has_log is_debugging next logs p c c' d d' line before after v w hb ha hv hw e
      e' whole hd hd' =
    rw (e, e')
      (logged_same gin has_log is_debugging logs p c d d' _ _ whole
        (redacted-with_credentials line before after v w hb ha hv hw) hd hd')
