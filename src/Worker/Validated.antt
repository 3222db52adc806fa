-- ===== src/Worker/Validated.antt =====
-- worker/evolution.py: what `_validate` lets through.
use mirror_memory.Prelude.{
  subst, ℕ, ◌≤◌, ◌<◌, ◌≢◌, ◌∙◌, none, some, false, any, all, map, String, true, Option, List, [],
  ◌∷◌, ◌≡◌, zero, suc, refl, sym, ap, inl, inr, All, take, length, Bool-cases, arith,
}
use mirror_memory.Prelude.Sort.{length-take}
use mirror_memory.Prelude.Members.{Among, at_head, in_tail, All-take, take-short}
use mirror_memory.Prelude.Text.{contains, any_marker, one_of, str_eq, strip, eq_iff}
use mirror_memory.Worker.Validate.{
  is_contradicted, Pattern, EvidencePayload, ValidationConfig, belief_keys, forces_verification,
  passes, validated, validate,
}

module _ (lower : String → String) (cfg : ValidationConfig)
    (evidence : Option EvidencePayload) where
  -- What a pattern of the answer has to meet: none of the labels and of the words of other people in
  -- its description, which is not blank, and evidence that the user has.
  pub record IsFit (p : Pattern) : Type 0 where
    pub no_label : All (λ w. contains (lower w) (lower p.description) ≡ false) cfg.forbidden_labels
    pub no_third_party :
        All (λ w. contains (lower w) (lower p.description) ≡ false) cfg.third_party_markers
    pub not_blank : strip p.description ≢ ""
    pub cited : All (λ k. one_of k (belief_keys evidence) ≡ true) p.evidence_keys

  -- A fit pattern with the mark for a verification where there is no evidence, of one session only, or
  -- contradicted.
  pub record IsAccepted (p : Pattern) : Type 0 where
    pub fit : IsFit p
    pub unsupported : evidence ≡ none → p.needs_verification ≡ true
    pub one_session :
        (e : EvidencePayload)
        → evidence ≡ some e
        → e.distinct_sessions < 2
        → p.needs_verification ≡ true
    pub contradicted :
        (e : EvidencePayload)
        → evidence ≡ some e
        → any is_contradicted e.beliefs ≡ true
        → p.needs_verification ≡ true

  -- The code's own tests.
  record IsChecked (p : Pattern) : Type 0 where
    checked : passes lower cfg (belief_keys evidence) p ≡ true
    marked : forces_verification evidence ≡ true → p.needs_verification ≡ true

  no-marker :
      (ws : List String) (t : String)
      → any_marker (map lower ws) t ≡ false
      → All (λ w. contains (lower w) t ≡ false) ws
  no-marker [] t h = tt
  no-marker (w ∷ ws) t h = (ground (arith, h), no-marker ws t (ground (arith, h)))

  all-cited :
      (ks keys : List String)
      → all (λ k. one_of k keys) ks ≡ true
      → All (λ k. one_of k keys ≡ true) ks
  all-cited [] keys h = tt
  all-cited (k ∷ ks) keys h = (ground (arith, h), all-cited ks keys (ground (arith, h)))

  checked-IsFit : (p : Pattern) → passes lower cfg (belief_keys evidence) p ≡ true → IsFit p
  unfolding passes
  checked-IsFit p c = record {
    no_label = no-marker cfg.forbidden_labels (lower p.description) (ground (arith, c));
    no_third_party = no-marker cfg.third_party_markers (lower p.description) (ground (arith, c));
    not_blank = λ e. ground (arith, c, (eq_iff (strip p.description) "").1 e);
    cited = all-cited p.evidence_keys (belief_keys evidence) (ground (arith, c));
  }

  marker-none :
      (ws : List String) (t : String)
      → All (λ w. contains (lower w) t ≡ false) ws
      → any_marker (map lower ws) t ≡ false
  marker-none [] t a = refl
  marker-none (w ∷ ws) t (c, cs) = ground (arith, c, marker-none ws t cs)

  cited-all :
      (ks keys : List String)
      → All (λ k. one_of k keys ≡ true) ks
      → all (λ k. one_of k keys) ks ≡ true
  cited-all [] keys a = refl
  cited-all (k ∷ ks) keys (c, cs) = ground (arith, c, cited-all ks keys cs)

  fit-passes : (p : Pattern) → IsFit p → passes lower cfg (belief_keys evidence) p ≡ true
  unfolding passes
  fit-passes p f =
      let not_blank : str_eq (strip p.description) "" ≢ true =
        λ e. f.not_blank ((eq_iff (strip p.description) "").0 e) in
      ground (
        arith,
        marker-none cfg.forbidden_labels (lower p.description) f.no_label,
        marker-none cfg.third_party_markers (lower p.description) f.no_third_party,
        not_blank,
        cited-all p.evidence_keys (belief_keys evidence) f.cited,
      )

  -- The same pattern up to its mark.
  abbrev pub IsMarked : Pattern → Pattern → Type 0
  IsMarked p r = (r.description ≡ p.description) × (r.evidence_keys ≡ p.evidence_keys)

  validated_complete :
      (ps : List Pattern) (p : Pattern)
      → Among p ps
      → IsFit p
      → (r : Pattern) × IsMarked p r × Among r (validated lower cfg evidence ps)
  unfolding validated
  validated_complete [] p m f = elim m [ ]
  validated_complete (q ∷ ps) p at_head f = elim (Bool-cases (forces_verification evidence)) [
    | inl y ↦ (
      record p { needs_verification = true },
      (refl, refl),
      rw (fit-passes p f, validated) (rw y at_head),
    )
    | inr n ↦ (p, (refl, refl), rw (fit-passes p f, validated) (rw n at_head))
  ]
  validated_complete (q ∷ ps) p (in_tail m) f =
      let (r, same, among) = validated_complete ps p m f in
      elim (Bool-cases (passes lower cfg (belief_keys evidence) q)) [
        | inl y ↦ (r, same, rw (y, validated) (in_tail among))
        | inr n ↦ (r, same, rw (n, validated) among)
      ]

  checked-IsAccepted : (p : Pattern) → IsChecked p → IsAccepted p
  unfolding forces_verification
  checked-IsAccepted p c = record {
    fit = checked-IsFit p c.checked;
    unsupported = λ e. c.marked (ap forces_verification e);
    one_session = λ e h few. c.marked (ap forces_verification h ∙ ground (arith, few));
    contradicted = λ e h against. c.marked (ap forces_verification h ∙ ground (arith, against));
  }

  All-IsAccepted : (ps : List Pattern) → All IsChecked ps → All IsAccepted ps
  All-IsAccepted [] a = tt
  All-IsAccepted (p ∷ ps) (c, cs) = (checked-IsAccepted p c, All-IsAccepted ps cs)

  validated-IsChecked : (ps : List Pattern) → All IsChecked (validated lower cfg evidence ps)
  unfolding validated passes
  validated-IsChecked [] = tt
  validated-IsChecked (p ∷ ps) = elim (Bool-cases (passes lower cfg (belief_keys evidence) p)) [
    | inr n ↦ rw (n, validated) (validated-IsChecked ps)
    | inl y ↦ elim (Bool-cases (forces_verification evidence)) [
      | inl f ↦
          rw (y, validated)
            (rw f (record { checked = y; marked = λ g. refl }, validated-IsChecked ps))
      | inr f ↦
          rw (y, validated)
            (rw f (
              record { checked = y; marked = λ g. absurd (ground (arith, f, g)) },
              validated-IsChecked ps,
            ))
    ]
  ]

  -- A pattern that is accepted already is left as it is.
  validated-same : (ps : List Pattern) → All IsChecked ps → validated lower cfg evidence ps ≡ ps
  unfolding validated
  validated-same [] a = refl
  validated-same (p ∷ ps) (c, cs) = elim (Bool-cases (forces_verification evidence)) [
    | inr f ↦ rw (c.checked, validated) (rw f (ap (λ rest. p ∷ rest) (validated-same ps cs)))
    | inl f ↦
        rw (c.checked, validated)
          (rw f (
            rw (validated-same ps cs)
              (ap (λ b. record p { needs_verification = b } ∷ ps) (sym (c.marked f)))))
  ]

  take-take : (n : ℕ) (ps : List Pattern) → take n (take n ps) ≡ take n ps
  take-take zero ps = refl
  take-take (suc n) [] = refl
  take-take (suc n) (p ∷ ps) = ap (λ rest. p ∷ rest) (take-take n ps)

-- For any patterns of the model's answer, what the validation returns is at most three patterns. None
-- of them has a forbidden label or a third-party marker in its description or is blank, each cites
-- evidence that the user has only, and each is marked for verification where there is no evidence, of
-- fewer than two sessions, or contradicted. Where they are fewer than three, every pattern of the
-- answer that meets the conditions on description and evidence is returned, up to its mark. The
-- validation returns these patterns as they are.
pub validate-IsAccepted :
    (lower : String → String) (cfg : ValidationConfig) (evidence : Option EvidencePayload)
    (ps : List Pattern)
    → (length (validate lower cfg evidence ps) ≤ 3)
      × All (IsAccepted lower cfg evidence) (validate lower cfg evidence ps)
      × (length (validate lower cfg evidence ps) < 3
          → (p : Pattern) → Among p ps
          → IsFit lower cfg evidence p
          → (r : Pattern) × IsMarked lower cfg evidence p r
            × Among r (validate lower cfg evidence ps))
      × (validate lower cfg evidence (validate lower cfg evidence ps)
          ≡ validate lower cfg evidence ps)
unfolding validate
validate-IsAccepted lower cfg evidence ps =
    let found = validated lower cfg evidence ps in
    let accepted =
      All-take (IsChecked lower cfg evidence) 3 found (validated-IsChecked lower cfg evidence ps) in
    (
      length-take 3 found,
      All-IsAccepted lower cfg evidence (take 3 found) accepted,
      λ short p m f.
          let (r, same, among) = validated_complete lower cfg evidence ps p m f in
          (r, same, subst (λ (l : List Pattern). Among r l) (sym (take-short 3 found short)) among),
      rw (validated-same lower cfg evidence (take 3 found) accepted)
          (take-take lower cfg evidence 3 found),
    )
