-- ===== src/Controller/Drift/Owned.antt =====
-- Functions that dress the metadata of an object, set its owner, and fill in the rest.
use rhbk_operator.Prelude.{String, ◌≡◌, refl, sym, ◌∙◌, ap, Option, subst, arith}
use rhbk_operator.Prelude.Maps.{Map}
use rhbk_operator.Prelude.Outcome.{Outcome, ok, err, panic, ◌>>=◌}
use rhbk_operator.Kube.Meta.{Meta}
use rhbk_operator.Kube.Libs.{Libs, KeepsMeta, IsStable}
use rhbk_operator.Controller.Drift.{Repairs, AgreesButLabels}

module _ {A : Type 0} (make : Meta → A) where
  -- A value was made from metadata that the first part returned.
  pub made :
      (r : Outcome Meta) {a : A}
      → (r >>= λ m. ok (make m)) ≡ ok a
      → (m : Meta) × (r ≡ ok m) × (make m ≡ a)
  made (ok m) e = (m, refl, ground arith)
  made (err x) e = absurd (ground arith)
  made panic e = absurd (ground arith)

module _ (libs : Libs) (keeps : KeepsMeta libs) (stable : IsStable libs) (owner : Meta) where
  -- The owner of metadata that have it is set once more.
  pub owned_again :
      {A : Type 0} (make : Meta → A) (dressed again : Meta) {m : Meta}
      → libs.set_controller_reference owner dressed ≡ ok m
      → again ≡ m
      → (libs.set_controller_reference owner again >>= λ m. ok (make m)) ≡ ok (make m)
  owned_again make dressed again {m} e same = rw (same, stable.again owner dressed e) refl

  -- Labels that are set before the owner is.
  pub relabelled :
      (labels : Option (Map String)) (before drifted : Meta) {m : Meta}
      → libs.set_controller_reference owner (record before { labels = labels }) ≡ ok m
      → AgreesButLabels drifted m
      → record drifted { labels = labels } ≡ m
  relabelled labels before drifted {m} e agrees =
      let kept : m.labels ≡ labels = (keeps.keeps owner (record before { labels = labels }) e).2 in
      ap (λ (d : Meta). record d { labels = labels }) agrees
      ∙ sym (ap (λ l. record m { labels = l }) kept)

  -- Labels and annotations that are set before the owner is.
  pub redressed :
      (labels annotations : Option (Map String)) (before drifted : Meta) {m : Meta}
      → libs.set_controller_reference owner
          (record before { labels = labels; annotations = annotations })
        ≡ ok m
      → drifted ≡ record m { labels = drifted.labels; annotations = drifted.annotations }
      → record drifted { labels = labels; annotations = annotations } ≡ m
  redressed labels annotations before drifted {m} e agrees =
      let kept =
        keeps.keeps owner (record before { labels = labels; annotations = annotations }) e in
      ap (λ (d : Meta). record d { labels = labels; annotations = annotations }) agrees
      ∙ sym (λ i. record m { labels = kept.2 i; annotations = kept.3 i })

  -- The repair of an object with these labels; the rest is made from the metadata alone.
  pub Repairs-relabelled :
      {A : Type 0} (make : Meta → A) (meta_of : A → Meta) (labels : Option (Map String))
      → ((m : Meta) → meta_of (make m) ≡ m)
      → Repairs
          (λ (x : A).
            libs.set_controller_reference owner (record (meta_of x) { labels = labels }) >>= λ m.
            ok (make m))
          (λ drifted built. AgreesButLabels (meta_of drifted) (meta_of built))
  Repairs-relabelled make meta_of labels meta-make before built drifted e agrees =
      let (m, set, same) =
        made make
          (libs.set_controller_reference owner (record (meta_of before) { labels = labels })) e in
      let meta : meta_of built ≡ m = ap meta_of (sym same) ∙ meta-make m in
      owned_again make (record (meta_of before) { labels = labels })
        (record (meta_of drifted) { labels = labels }) set
        (relabelled labels (meta_of before) (meta_of drifted) set
          (subst (λ x. AgreesButLabels (meta_of drifted) x) meta agrees))
      ∙ ap ok same
