-- ===== src/Provisioner/Created.antt =====
-- What tools/provisioner/main.py leaves in the services.
use edge_serverless_box.Base.{
  ℕ, zero, suc, ◌≤◌, ◌≡◌, inl, inr, refl, sym, ap, ◌∙◌, String, Bool, true, false, ◌&&◌, ◌||◌,
  Option, none, some, List, [], ◌∷◌, arith, any_of, str_eq, str_eq_refl, Bool-cases,
}
use mathlib.Core.Option.{none-ne-some, some-injective}
use edge_serverless_box.Base.Chain.{all_of}
use edge_serverless_box.Provisioner.{
  Reply, responds, refuses, breaks, wait_for_service, is_listed, report, create_buckets,
  provision_s3,
}

-- What a creation that succeeds does: the name is there, and every other one as before.
pub record IsStore {ℓ} (Service : Type ℓ) (create : String → Service → Option Service)
    (names : Service → List String) : Type ℓ where
  pub created :
      (name other : String) (s after : Service)
      → create name s ≡ some after
      → is_listed other (names after) ≡ (str_eq name other || is_listed other (names s))

module _ {ℓ} (Service : Type ℓ) (create : String → Service → Option Service)
    (names : Service → List String) (store : IsStore Service create names) where
  abbrev loop : List String → List String → Service → Service × List String
  loop = create_buckets Service create

  -- A bucket is there afterwards, or its creation was reported as failed.
  abbrev pub is_settled : Service × List String → String → Bool
  is_settled o b = is_listed b (names o.0) || is_listed b o.1

  keeps-report :
      (name other : String) (s : Service) (o : Option Service)
      (next : Service → Service × List String)
      → create name s ≡ o
      → ((t : Service)
          → is_listed other (names t) ≡ true
          → is_listed other (names (next t).0) ≡ true)
      → is_listed other (names s) ≡ true
      → is_listed other (names (report Service create name o s next).0) ≡ true
  keeps-report name other s none next e keeps there = keeps s there
  keeps-report name other s (some after) next e keeps there =
      keeps after (store.created name other s after e ∙ ground (arith, there))

  loop-keeps :
      (existing buckets : List String) (other : String) (s : Service)
      → is_listed other (names s) ≡ true
      → is_listed other (names (loop existing buckets s).0) ≡ true
  unfolding create_buckets
  loop-keeps existing [] other s there = there
  loop-keeps existing (name ∷ buckets) other s there = elim (Bool-cases (is_listed name existing)) [
    | inl listed ↦
        by_step (loop existing buckets s) (rw listed) (loop-keeps existing buckets other s there)
    | inr missing ↦
        by_step (report Service create name (create name s) s (loop existing buckets)) (rw missing)
          (keeps-report name other s (create name s) (loop existing buckets) refl
            (loop-keeps existing buckets other) there)
  ]
    where
      by_step :
          (o : Service × List String)
          → loop existing (name ∷ buckets) s ≡ o
          → is_listed other (names o.0) ≡ true
          → is_listed other (names (loop existing (name ∷ buckets) s).0) ≡ true
      by_step o e there = ap (λ (r : Service × List String). is_listed other (names r.0)) e ∙ there

  more_reports :
      (t : Service) (failed : List String) (name : String) (bs : List String)
      → all_of (is_settled (t, failed)) bs ≡ true
      → all_of (is_settled (t, name ∷ failed)) bs ≡ true
  unfolding any_of
  more_reports t failed name [] all = refl
  more_reports t failed name (b ∷ bs) all = ground (arith, more_reports t failed name bs)

  -- The next bucket and the rest, from what the creation of the next one does.
  report-settled :
      (name : String) (buckets : List String) (s : Service) (o : Option Service)
      (next : Service → Service × List String)
      → create name s ≡ o
      → ((t : Service) → is_listed name (names t) ≡ true → is_listed name (names (next t).0) ≡ true)
      → ((t : Service) → create name s ≡ some t → all_of (is_settled (next t)) buckets ≡ true)
      → (create name s ≡ none → all_of (is_settled (next s)) buckets ≡ true)
      → all_of (is_settled (report Service create name o s next)) (name ∷ buckets) ≡ true
  report-settled name buckets s none next e keeps well ill =
      and-true (is_listed name (names (next s).0) || is_listed name (name ∷ (next s).1)) _
        (unfold any_of in or-first _ _ _ (str_eq_refl name))
        (more_reports (next s).0 (next s).1 name buckets (ill e))
    where
      and-true : (a b : Bool) → a ≡ true → b ≡ true → (a && b) ≡ true
      and-true a b ea eb = ground arith

      or-first : (a b c : Bool) → b ≡ true → (a || (b || c)) ≡ true
      or-first a b c eb = ground arith
  report-settled name buckets s (some after) next e keeps well ill = ground (
    arith,
    well after e,
    keeps after (
        store.created name name s after e
        ∙ ap (λ b. b || is_listed name (names s)) (str_eq_refl name)),
  )

  loop-settled :
      (existing buckets : List String) (s : Service)
      → ((other : String) → is_listed other existing ≡ true → is_listed other (names s) ≡ true)
      → all_of (is_settled (loop existing buckets s)) buckets ≡ true
  unfolding create_buckets
  loop-settled existing [] s sound = refl
  loop-settled existing (name ∷ buckets) s sound = elim (Bool-cases (is_listed name existing)) [
    | inl listed ↦
        here listed (loop-keeps existing buckets name s (sound name listed))
          (loop-settled existing buckets s sound)
    | inr missing ↦
        ap (λ o. all_of (is_settled o) (name ∷ buckets)) (not_listed missing)
        ∙ report-settled name buckets s (create name s) (loop existing buckets) refl
            (λ t. loop-keeps existing buckets name t)
            (λ t e.
              loop-settled existing buckets t
                λ other known. store.created name other s t e ∙ or-second _ _ (sound other known))
            (λ e. loop-settled existing buckets s sound)
  ]
    where
      or-second : (a b : Bool) → b ≡ true → (a || b) ≡ true
      or-second a b eb = ground arith

      not_listed :
          is_listed name existing ≡ false
          → loop existing (name ∷ buckets) s
            ≡ report Service create name (create name s) s (loop existing buckets)
      not_listed missing = rw missing

      skipped :
          is_listed name existing ≡ true
          → loop existing (name ∷ buckets) s ≡ loop existing buckets s
      skipped listed = rw listed

      here :
          is_listed name existing ≡ true
          → is_listed name (names (loop existing buckets s).0) ≡ true
          → all_of (is_settled (loop existing buckets s)) buckets ≡ true
          → all_of (is_settled (loop existing (name ∷ buckets) s)) (name ∷ buckets) ≡ true
      here listed there rest =
          ap (λ o. all_of (is_settled o) (name ∷ buckets)) (skipped listed)
          ∙ (ap
                (λ c.
                  (c || is_listed name (loop existing buckets s).1)
                  && all_of (is_settled (loop existing buckets s)) buckets)
                there
              ∙ rest)

  loop-listed :
      (existing buckets : List String) (s : Service)
      → all_of (λ b. is_listed b existing) buckets ≡ true
      → loop existing buckets s ≡ (s, [])
  unfolding create_buckets
  loop-listed existing [] s all = refl
  loop-listed existing (name ∷ buckets) s all = elim (Bool-cases (is_listed name existing)) [
    | inl listed ↦ rw listed (
        loop-listed existing buckets s
          (sym (ap (λ b. b && all_of (λ c. is_listed c existing) buckets) listed) ∙ all))
    | inr missing ↦ absurd (clash missing all)
  ]
    where
      clash :
          is_listed name existing ≡ false
          → (is_listed name existing && all_of (λ b. is_listed b existing) buckets) ≡ true
          → ⊥
      clash missing both = ground (arith, missing, both)

  -- Provisioning tries every bucket of the template: each one exists afterwards, or is reported as
  -- failed; and none that existed is lost. Where all of them exist, provisioning again changes
  -- nothing and reports nothing. The service lists only names that it has, and a creation that
  -- succeeds adds its name; one that fails may do so for any reason.
  pub provision_s3-settled :
      (listed : List String) (buckets : List String) (s : Service)
      → ((other : String) → is_listed other listed ≡ true → is_listed other (names s) ≡ true)
      → let done = provision_s3 Service create (some listed) buckets s in
        (all_of (is_settled done) buckets ≡ true)
        × ((other : String)
            → is_listed other (names s) ≡ true
            → is_listed other (names done.0) ≡ true)
        × (all_of (λ b. is_listed b (names done.0)) buckets ≡ true
            → provision_s3 Service create (some (names done.0)) buckets done.0 ≡ (done.0, []))
  unfolding provision_s3
  provision_s3-settled listed buckets s sound = (
    loop-settled listed buckets s sound,
    (λ other. loop-keeps listed buckets other s),
    loop-listed (names (loop listed buckets s).0) buckets (loop listed buckets s).0,
  )

true_not_false : true ≡ false → ⊥
true_not_false e = ground arith

-- The wait makes one request for each retry at most and sleeps a second after each that is refused:
-- it never sleeps longer than it has retries, and gives up only after that many refusals.
pub wait_for_service-bounded :
    (replies : ℕ → Reply) (retries n : ℕ)
    → ((wait_for_service replies retries n).1 ≤ retries)
      × ((wait_for_service replies retries n).0 ≡ some false
          → (wait_for_service replies retries n).1 ≡ retries)
unfolding wait_for_service
wait_for_service-bounded replies zero n = (omega arith, λ e. refl)
wait_for_service-bounded replies (suc retries) n =
    after (replies n) refl (wait_for_service-bounded replies retries (suc n))
  where
    after :
        (r : Reply)
        → replies n ≡ r
        → ((wait_for_service replies retries (suc n)).1 ≤ retries)
          × ((wait_for_service replies retries (suc n)).0 ≡ some false
              → (wait_for_service replies retries (suc n)).1 ≡ retries)
        → ((wait_for_service replies (suc retries) n).1 ≤ suc retries)
          × ((wait_for_service replies (suc retries) n).0 ≡ some false
              → (wait_for_service replies (suc retries) n).1 ≡ suc retries)
    after responds e ih = rw e (omega arith, λ f. elim (true_not_false (some-injective _ _ f)) [ ])
    after refuses e ih = rw e (omega (arith, ih.0), λ f. ap suc (ih.1 f))
    after breaks e ih = rw e (omega arith, λ f. absurd (none-ne-some false f))
