-- ===== src/Hooks/Handlers.antt =====
-- `_patch_logging` of tools/generator/runtime/site-packages/sitecustomize.py: the root logger's
-- handlers are replaced by one that prints JSON. A handler is named by a text.
use edge_serverless_box.Base.{
  ℕ, zero, suc, ◌≤◌, ◌≡◌, refl, sym, ap, ◌∙◌, String, Bool, true, false, not, ◌&&◌, ◌||◌, Option,
  none, some, List, [], ◌∷◌, ◌++◌, arith, eq_iff, length, length-append, str_eq, str_eq_refl,
  if◌then◌else◌,
}
use edge_serverless_box.Base.Dict.{Dict, lookup}

-- `root.removeHandler(h)`
unfoldable pub remove_handler : String → List String → List String
remove_handler h [] = []
remove_handler h (g ∷ gs) = let rest = remove_handler h gs in if str_eq g h then gs else g ∷ rest

-- `handlers[i]`, if there is one
unfoldable pub nth : ℕ → List String → Option String
nth i [] = none
nth zero (h ∷ hs) = some h
nth (suc i) (h ∷ hs) = nth i hs

-- `for h in root.handlers: root.removeHandler(h)`: Python's iterator of a list keeps an index, which
-- goes on by one whatever the body does to the list. `fuel` bounds the number of rounds.
unfoldable pub remove_all : ℕ → ℕ → List String → List String
unfolding remove_handler nth
remove_all zero i hs = hs
remove_all (suc fuel) i hs = go (nth i hs) (λ h. remove_all fuel (suc i) (remove_handler h hs))
  where
    go : Option String → (String → List String) → List String
    go none next = hs
    go (some h) next = next h

-- The root logger: its handlers and its level.
pub record Root : Type 0 where
  pub handlers : List String
  pub level : String

unfoldable pub patch_logging : (String → String) → Dict String → String → Root → Root
unfolding remove_all lookup
patch_logging upper environ handler root = record {
  handlers = remove_all (length root.handlers) 0 root.handlers ++ handler ∷ [];
  level = upper (level_or (lookup "LOG_LEVEL" environ));
}
  where
    level_or : Option String → String
    level_or none = "INFO"
    level_or (some l) = l

-- Every second element, from the second on.
abbrev pub every_second : List String → List String
every_second [] = []
every_second (h ∷ []) = []
every_second (h ∷ g ∷ hs) = g ∷ every_second hs

-- No element occurs twice.
abbrev pub is_in : String → List String → Bool
is_in h [] = false
is_in h (g ∷ gs) = str_eq g h || is_in h gs

abbrev pub distinct : List String → Bool
distinct [] = true
distinct (h ∷ hs) = not (is_in h hs) && distinct hs

remove-behind :
    (kept : List String) (h : String) (hs : List String)
    → is_in h kept ≡ false
    → remove_handler h (kept ++ h ∷ hs) ≡ kept ++ hs
unfolding remove_handler
remove-behind [] h hs free = rw (str_eq_refl h)
remove-behind (k ∷ kept) h hs free = ground (arith, remove-behind kept h hs)

nth-behind :
    (kept : List String) (h : String) (hs : List String)
    → nth (length kept) (kept ++ h ∷ hs) ≡ some h
unfolding nth
nth-behind [] h hs = refl
nth-behind (k ∷ kept) h hs = nth-behind kept h hs

nth-end : (kept : List String) → nth (length kept) kept ≡ none
unfolding nth
nth-end [] = refl
nth-end (k ∷ kept) = nth-end kept

nth-beyond : (kept : List String) → nth (suc (length kept)) kept ≡ none
unfolding nth
nth-beyond [] = refl
nth-beyond (k ∷ kept) = nth-beyond kept

append-nil : (xs : List String) → xs ++ [] ≡ xs
append-nil [] = refl
append-nil (x ∷ xs) = ap (λ (ys : List String). x ∷ ys) (append-nil xs)

append-one :
    (xs : List String) (y : String) (ys : List String) → (xs ++ y ∷ []) ++ ys ≡ xs ++ y ∷ ys
append-one [] y ys = refl
append-one (x ∷ xs) y ys = ap (λ (zs : List String). x ∷ zs) (append-one xs y ys)

is_in-append : (h : String) (xs ys : List String) → is_in h (xs ++ ys) ≡ (is_in h xs || is_in h ys)
is_in-append h [] ys = refl
is_in-append h (x ∷ xs) ys = ground (arith, is_in-append h xs ys)

distinct-apart :
    (h : String) (kept hs : List String) → distinct (kept ++ h ∷ hs) ≡ true → is_in h kept ≡ false
distinct-apart h [] hs d = refl
distinct-apart h (k ∷ kept) hs d =
    ground (arith, distinct-apart h kept hs, is_in-append k kept (h ∷ hs), eq_iff k h, eq_iff h k)

distinct-drop :
    (h : String) (kept hs : List String)
    → distinct (kept ++ h ∷ hs) ≡ true
    → distinct (kept ++ hs) ≡ true
distinct-drop h [] hs d = ground arith
distinct-drop h (k ∷ kept) hs d =
    ground (arith, distinct-drop h kept hs, is_in-append k kept (h ∷ hs), is_in-append k kept hs)

remove_all-end : (fuel : ℕ) (kept : List String) → remove_all fuel (suc (length kept)) kept ≡ kept
unfolding remove_all
remove_all-end zero kept = refl
remove_all-end (suc fuel) kept = rw (nth-beyond kept)

length-one : (kept : List String) (g : String) → suc (length kept) ≡ length (kept ++ g ∷ [])
length-one kept g = omega (arith, length-append kept (g ∷ []))

remove_all-every_second :
    (fuel : ℕ) (kept hs : List String)
    → length hs ≤ fuel
    → distinct (kept ++ hs) ≡ true
    → remove_all fuel (length kept) (kept ++ hs) ≡ kept ++ every_second hs
unfolding remove_all
remove_all-every_second zero kept [] enough d = refl
remove_all-every_second zero kept (h ∷ hs) enough d = elim enough [ ]
remove_all-every_second (suc fuel) kept [] enough d = rw (append-nil kept) (rw (nth-end kept))
remove_all-every_second (suc fuel) kept (h ∷ []) enough d = rw (nth-behind kept h []) (
    rw (remove-behind kept h [] (distinct-apart h kept [] d))
      (rw (append-nil kept) (remove_all-end fuel kept)))
remove_all-every_second (suc fuel) kept (h ∷ g ∷ hs) enough d = rw (nth-behind kept h (g ∷ hs)) (
    rw (remove-behind kept h (g ∷ hs) (distinct-apart h kept (g ∷ hs) d)) (
      ap (λ (i : ℕ). remove_all fuel i (kept ++ g ∷ hs)) (length-one kept g)
      ∙ ap (remove_all fuel (length (kept ++ g ∷ []))) (sym (append-one kept g hs))
      ∙ remove_all-every_second fuel (kept ++ g ∷ []) hs (omega arith)
          (ap distinct (append-one kept g hs) ∙ distinct-drop h kept (g ∷ hs) d)
      ∙ append-one kept g (every_second hs)))

-- Patching does not replace the root logger's handlers: of those that it had, the second, the fourth
-- and so on are still there, before the new one. The loop's bound is enough: with more rounds it
-- gives the same.
pub patch_logging-every_second :
    (upper : String → String) (environ : Dict String) (handler : String) (root : Root) (fuel : ℕ)
    → distinct root.handlers ≡ true
    → length root.handlers ≤ fuel
    → ((patch_logging upper environ handler root).handlers
        ≡ every_second root.handlers ++ handler ∷ [])
      × (remove_all fuel 0 root.handlers ≡ every_second root.handlers)
unfolding patch_logging
patch_logging-every_second upper environ handler root fuel d enough = (
  ap (λ hs. hs ++ handler ∷ [])
      (remove_all-every_second (length root.handlers) [] root.handlers (omega arith) d),
  remove_all-every_second fuel [] root.handlers enough d,
)
