-- ===== src/Fsm/Dot/Lines.antt =====
-- The lines of an exported machine.
use free5gc_workspace.Prelude.{
  ◌≡◌, refl, ap, ◌∙◌, true, Bool-cases, inl, inr, List, [], ◌∷◌, ◌++◌, map, All,
}
use mathlib.Core.List.{append_assoc}
use free5gc_workspace.Text.Decimal.{Bytes, codes}
use free5gc_workspace.Text.Words.{Lacks, contains_byte, join}
use free5gc_workspace.Text.Search.{
  has_suffix, has_suffix-append, split_crlf, crlf, split_crlf-join, contains_byte-Lacks,
  Lacks-append,
}
use free5gc_workspace.Fsm.{Transition}
use free5gc_workspace.Fsm.Dot.{dot_head, dot_link, dot_links, dot_text, dot_file}

-- The bytes of the names of a transition have no carriage return.
abbrev pub IsOneLine : Transition → Type 0
IsOneLine t = Lacks 13 (codes t.source) × Lacks 13 (codes t.target) × Lacks 13 (codes t.event)

abbrev pub closing : Bytes
closing = codes "}" ++ 10 ∷ []

dot_link-Lacks : (t : Transition) → IsOneLine t → Lacks 13 (dot_link t)
unfolding dot_link contains_byte
dot_link-Lacks t (hs, ht, he) = (
  refl,
  Lacks-append 13 (codes t.source) _ hs (
      Lacks-append 13 (codes " -> ") _ (contains_byte-Lacks 13 (codes " -> ") refl) (
        Lacks-append 13 (codes t.target) _ ht (
          Lacks-append 13 (codes " [label=\"") _
            (refl, (refl, (refl, (refl, (refl, (contains_byte-Lacks 13 (codes " -> ") refl))))))
            (Lacks-append 13 (codes t.event) (codes "\"]") he (refl, (refl, tt)))))),
)

links-Lacks :
    (ts : List Transition) → All IsOneLine ts → All (Lacks 13) (map dot_link ts ++ closing ∷ [])
links-Lacks [] h = ((refl, (refl, tt)), tt)
links-Lacks (t ∷ ts) h = (dot_link-Lacks t h.0, links-Lacks ts h.1)

dot_text_joined :
    (line : Bytes) (ts : List Transition)
    → line ++ (dot_links ts ++ (crlf ++ closing))
      ≡ join crlf (line ∷ (map dot_link ts ++ closing ∷ []))
unfolding dot_links join
dot_text_joined line [] = refl
dot_text_joined line (t ∷ ts) =
    ap (λ s. line ++ (crlf ++ s))
      (append_assoc (dot_link t) (dot_links ts) (crlf ++ closing) ∙ dot_text_joined (dot_link t) ts)

-- The file has the suffix .dot. Where no name has a carriage return, its text has a line for each
-- transition, in the order in which they are visited, between the head and the closing brace.
pub dot_text_lines :
    (outfile : Bytes) (ts : List Transition)
    → All IsOneLine ts
    → (has_suffix (dot_file outfile) (codes ".dot") ≡ true)
      × (split_crlf (dot_text ts) ≡ dot_head ∷ (map dot_link ts ++ closing ∷ []))
unfolding dot_text dot_file contains_byte
dot_text_lines outfile ts h = (suffix, lines)
  where
    suffix : has_suffix (dot_file outfile) (codes ".dot") ≡ true
    suffix = elim (Bool-cases (has_suffix outfile (codes ".dot"))) [
      | inl e ↦ rw e e
      | inr e ↦ rw e (has_suffix-append outfile (codes ".dot"))
    ]

    lines : split_crlf (dot_text ts) ≡ dot_head ∷ (map dot_link ts ++ closing ∷ [])
    lines =
        ap split_crlf (dot_text_joined dot_head ts)
        ∙ split_crlf-join dot_head (map dot_link ts ++ closing ∷ [])
            (contains_byte-Lacks 13 dot_head refl, links-Lacks ts h)
