-- ===== src/Trace/RoundTrip.antt =====
-- A trace id printed and parsed again, of services/common/core/trace.py.
use edge_serverless_box.Base.{
  ◌≡◌, refl, ap, ◌∙◌, String, false, Option, none, some, List, [], ◌∷◌, ◌++◌,
}
use edge_serverless_box.Base.Dict.{lookup, insert}
use edge_serverless_box.Base.Text.{
  append, has_char, is_empty, strip, split, split_once, split-before, split-free,
}
use edge_serverless_box.Trace.{TraceId, parse, parse_parts, field, parent_field, to_text}

-- A value that is not empty, has no separator in it, and no blank around it.
pub record IsPlain (s : String) : Type 0 where
  pub some_text : is_empty s ≡ false
  pub no_separator : has_char b';' s ≡ false
  pub trimmed : strip s ≡ s

abbrev pub IsPlainParent : Option String → Type 0
IsPlainParent none = Unit
IsPlainParent (some p) = IsPlain p

abbrev parent_part : Option String → List String
parent_part none = []
parent_part (some p) = append "Parent=" p ∷ []

strip_root : strip "Root" ≡ "Root"
unfolding strip
strip_root = refl

strip_parent : strip "Parent" ≡ "Parent"
unfolding strip
strip_parent = refl

strip_sampled : strip "Sampled" ≡ "Sampled"
unfolding strip
strip_sampled = refl

-- The parts of a printed id.
split-to_text :
    (t : TraceId)
    → IsPlain t.root
    → IsPlainParent t.parent
    → IsPlain t.sampled
    → split b';' (to_text t)
      ≡ append "Root=" t.root ∷ (parent_part t.parent ++ append "Sampled=" t.sampled ∷ [])
unfolding to_text has_char
split-to_text t r p s = by_parent t.parent p
  where
    last : split b';' (append "Sampled=" t.sampled) ≡ append "Sampled=" t.sampled ∷ []
    last = split-free b';' (append "Sampled=" t.sampled) s.no_separator

    by_parent :
        (o : Option String)
        → IsPlainParent o
        → split b';'
            (append "Root=" (append t.root (append (parent_field o) (field ";Sampled=" t.sampled))))
          ≡ append "Root=" t.root ∷ (parent_part o ++ append "Sampled=" t.sampled ∷ [])
    by_parent none p = rw s.some_text (
        split-before b';' ";" (append "Root=" t.root) (append "Sampled=" t.sampled) refl
          r.no_separator
        ∙ ap (λ (ps : List String). append "Root=" t.root ∷ ps) last)
    by_parent (some o) p = rw s.some_text (
        rw p.some_text (
          split-before b';' ";" (append "Root=" t.root)
            (append "Parent=" (append o (append ";Sampled=" t.sampled))) refl r.no_separator
          ∙ ap (λ (ps : List String). append "Root=" t.root ∷ ps)
              (split-before b';' ";" (append "Parent=" o) (append "Sampled=" t.sampled) refl
                  p.no_separator
                ∙ ap (λ (ps : List String). append "Parent=" o ∷ ps) last)))

-- An id whose texts are plain is the same after printing and parsing.
pub parse-to_text :
    (t : TraceId)
    → IsPlain t.root
    → IsPlainParent t.parent
    → IsPlain t.sampled
    → parse (to_text t) ≡ t
unfolding parse parse_parts split_once insert lookup
parse-to_text t r p s = ap (parse_parts (to_text t)) (split-to_text t r p s) ∙ read t.parent p
  where
    read :
        (o : Option String)
        → IsPlainParent o
        → parse_parts
            (to_text t)
            (append "Root=" t.root ∷ (parent_part o ++ append "Sampled=" t.sampled ∷ []))
          ≡ record { root = t.root; parent = o; sampled = t.sampled }
    read none p =
        rw strip_root (rw strip_sampled (rw r.trimmed (rw s.trimmed (rw r.some_text refl))))
    read (some o) p = rw strip_root (
        rw strip_parent
          (rw strip_sampled (rw r.trimmed (rw p.trimmed (rw s.trimmed (rw r.some_text refl))))))
