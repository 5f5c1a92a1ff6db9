-- ===== src/Trace.antt =====
-- services/common/core/trace.py: the id that is passed on with a request, and its text in a header.
pub mod RoundTrip
pub mod Middleware
pub mod Journey
mod Tests
use edge_serverless_box.Base.{
  ℕ, zero, suc, ◌+◌, ◌-◌, ◌*◌, ◌≤◌, ◌<◌, ◌≡◌, ◌≢◌, ◌⊎◌, inl, inr, ◌↔◌, refl, sym, ap, ◌∙◌, subst,
  String, Bool, true, false, not, ◌&&◌, ◌||◌, Option, none, some, List, [], ◌∷◌, ◌++◌, map, arith,
  eq_iff, length, length-append, keep_if, any_of, str_eq, str_eq_refl, ltb, leb, ◌==◌,
  if◌then◌else◌, Bool-cases, Option-cases, Result, ok, err,
}
use edge_serverless_box.Base.Dict.{Dict, lookup, insert}
use edge_serverless_box.Base.Text.{append, has_char, is_empty, strip, split, split_once}

pub record TraceId : Type 0 where
  pub root : String
  pub parent : Option String
  pub sampled : String

abbrev put : Option (String × String) → Dict String → Dict String
put none parts = parts
put (some (k, v)) parts = insert (strip k) (strip v) parts

-- The loop over the parts of a header: those with an equals sign are put into a dictionary.
unfoldable pub parts_of : List String → Dict String → Dict String
parts_of [] parts = parts
parts_of (part ∷ rest) parts = parts_of rest (put (split_once b'=' part) parts)

abbrev text_or : Option String → String → String
text_or none d = d
text_or (some t) d = t

-- `parts.get("Root", "")`, or the header itself if that is a raw id.
unfoldable pub root_of : String → Dict String → String
root_of header parts =
    let root = text_or (lookup "Root" parts) "" in
    if is_empty root && not (is_empty header) && has_char b'-' header && not (has_char b'=' header)
    then strip header
    else root

-- The id, from the parts of the header between its semicolons.
unfoldable pub parse_parts : String → List String → TraceId
unfolding parts_of root_of
parse_parts header pieces =
    let parts = parts_of pieces [] in
    record {
      root = root_of header parts;
      parent = lookup "Parent" parts;
      sampled = text_or (lookup "Sampled" parts) "1";
    }

unfoldable pub parse : String → TraceId
parse header = parse_parts header (split b';' header)

-- `if value: s += ";" + name + "=" + value`, for the fields behind the root
abbrev pub field : String → String → String
field name value = if is_empty value then "" else append name value

abbrev pub parent_field : Option String → String
parent_field none = ""
parent_field (some p) = field ";Parent=" p

-- `__str__`
unfoldable pub to_text : TraceId → String
to_text t =
    append "Root=" (append t.root (append (parent_field t.parent) (field ";Sampled=" t.sampled)))

-- `set_trace_id` of services/common/core/request_context.py: what is kept for the request
unfoldable pub set_trace_id : String → String
unfolding parse to_text
set_trace_id header = to_text (parse header)
