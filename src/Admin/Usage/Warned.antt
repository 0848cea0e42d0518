-- ===== src/Admin/Usage/Warned.antt =====
-- The list of warned users against the decision on a request.
use pro_rag.Prelude.{
  some-injective, ℕ, ◌≡◌, ◌≢◌, ◌↔◌, ◌⊎◌, inl, inr, refl, sym, ap, ◌∙◌, subst, Bool, true, false,
  Option, none, some, List, [], ◌∷◌, arith, ◌==◌, ==_iff, any, leb, Bool-cases, if_true, if_false,
  if◌then◌else◌, Member, Member-filter, Member-of_filter,
}
use pro_rag.Budget.Caps.{
  cost_of, is_today, is_todays, own_cap, own_cap_lem, today_lem, today_user_cost_usd-eq,
}
use pro_rag.Budget.{
  utc_day_start, cap_of, Money, Usage, Settings, ok, warn, block, today_user_cost_usd,
  budget_decision,
}
use pro_rag.Admin.Usage.{Capped, put_user, users_of, todays, cap_for, warned_users}

by_tests :
    (hard soft : Bool)
    → (hard ≡ true → soft ≡ true)
    → (soft ≡ true) ↔ ((if hard then block else if soft then warn else ok) ≢ ok)
by_tests true soft h = ((λ e k. cc), (λ k. h refl))
by_tests false true h = ((λ e k. cc), (λ k. refl))
by_tests false false h = ((λ e. cc), (λ k. absurd (k refl)))

any-Member : (n : ℕ) (ids : List ℕ) → any (λ k. k == n) ids ≡ true → Member n ids
any-Member n [] h = absurd cc
any-Member n (k ∷ ids) h = elim (Bool-cases (k == n)) [
  | inl e ↦ inl (sym ((==_iff k n).0 e))
  | inr e ↦ inr (any-Member n ids (ground (arith, e, h)))
]

module _ (m : Money) where
  decision_not_ok :
      (spent cap hard_multiplier : m.Score)
      → m.le cap (m.mul cap hard_multiplier) ≡ true
      → (m.le cap spent ≡ true) ↔ (budget_decision m spent cap hard_multiplier ≢ ok)
  unfolding budget_decision
  decision_not_ok spent cap hard_multiplier h =
      by_tests (m.le (m.mul cap hard_multiplier) spent) (m.le cap spent)
        (λ e. m.trans cap (m.mul cap hard_multiplier) spent h e)

  -- Some row of the day, or of a later one, is the user's.
  abbrev pub HasRow : ℕ → List (Usage m) → ℕ → Type 0
  HasRow now rows id =
      (u : Usage m) × Member u rows × (u.user_id ≡ some id) × (is_today m now u ≡ true)

  -- The cap of the user on record, if one is, and it is set; else the default.
  abbrev pub override_of : List (Capped m) → ℕ → Option m.Score
  override_of [] id = none
  override_of (c ∷ users) id =
      let rest = override_of users id in if c.id == id then c.daily_cap_usd_override else rest

  put_user-Member :
      (o : Option ℕ) (ids : List ℕ) (id : ℕ)
      → Member id (put_user m o ids) ↔ ((o ≡ some id) ⊎ Member id ids)
  put_user-Member none ids id = ((λ k. inr k), (λ h. elim h [ inl e ↦ absurd cc | inr k ↦ k ]))
  put_user-Member (some n) ids id = elim (Bool-cases (any (λ k. k == n) ids)) [
    | inl e ↦ (
      (λ k. inr (subst (Member id) (if_true _ _ e) k)),
      (λ h. subst (Member id) (sym (if_true _ _ e)) (elim h [
        | inl same ↦ subst (λ k. Member k ids) (some-injective same) (any-Member n ids e)
        | inr k ↦ k
      ])),
    )
    | inr e ↦ (
      (λ k. elim (subst (Member id) (if_false _ _ e) k) [
        | inl same ↦ inl (ap (λ t. some t) (sym same))
        | inr k ↦ inr k
      ]),
      (λ h.
          subst (Member id) (sym (if_false _ _ e))
            (elim h [ inl same ↦ inl (sym (some-injective same)) | inr k ↦ inr k ])),
    )
  ]

  users-Member :
      (now id : ℕ) (rows : List (Usage m))
      → Member id (users_of m (todays m now rows)) ↔ HasRow now rows id
  users-Member now id [] = ((λ k. absurd k), (λ (u, k, _, _). absurd k))
  users-Member now id (u ∷ rows) =
      let day_test = today_lem m now u.created_at in
      elim (Bool-cases (leb (utc_day_start now) u.created_at)) [
        | inl e ↦ (
          (λ k.
              elim ((put_user-Member u.user_id (users_of m (todays m now rows)) id).0
                (subst (λ t. Member id (users_of m t)) (if_true _ _ e) k)) [
                  | inl own ↦ (u, inl refl, own, sym day_test ∙ e)
                  | inr n ↦
                      let (v, there, own, today) = (users-Member now id rows).0 n in
                      (v, inr there, own, today)
                ]),
          (λ (v, there, own, today).
              subst (λ t. Member id (users_of m t)) (sym (if_true _ _ e))
                ((put_user-Member u.user_id (users_of m (todays m now rows)) id).1 (elim there [
                  | inl same ↦ inl (ap (λ (x : Usage m). x.user_id) (sym same) ∙ own)
                  | inr n ↦ inr ((users-Member now id rows).1 (v, n, own, today))
                ]))),
        )
        | inr e ↦ (
          (λ k.
              let (v, there, own, today) =
                (users-Member now id rows).0
                  (subst (λ t. Member id (users_of m t)) (if_false _ _ e) k) in
              (v, inr there, own, today)),
          (λ (v, there, own, today).
              subst (λ t. Member id (users_of m t)) (sym (if_false _ _ e))
                (elim there [
                  | inl same ↦
                      let here = ap (is_today m now) (sym same) ∙ today in
                      absurd (let no : false ≡ true = sym e ∙ day_test ∙ here in cc)
                  | inr n ↦ (users-Member now id rows).1 (v, n, own, today)
                ])),
        )
      ]

  cap_for_lem :
      (settings : Settings m) (users : List (Capped m)) (id : ℕ)
      → cap_for m settings users id ≡ own_cap m settings (override_of users id)
  cap_for_lem settings [] id = refl
  cap_for_lem settings (c ∷ users) id = elim (Bool-cases (c.id == id)) [
    | inl e ↦
        ap (cap_found settings) (if_true _ _ e)
        ∙ own_cap_lem m settings c.daily_cap_usd_override
        ∙ ap (own_cap m settings) (sym (if_true _ _ e))
    | inr e ↦
        ap (cap_found settings) (if_false _ _ e)
        ∙ cap_for_lem settings users id
        ∙ ap (own_cap m settings) (sym (if_false _ _ e))
  ]
    where
      cap_found : Settings m → Option (Capped m) → m.Score
      cap_found settings o = elim o [
        | none ↦ settings.user_daily_cap_usd
        | some c ↦ cap_of m settings c.daily_cap_usd_override
      ]

  -- Where the user's cap times the multiplier is not below the cap, the report warns of a user exactly
  -- where the user has a row of the day or a later one and the rows of the user of these days cost so
  -- much that the decision on a request, by the user's own cap or else the default, is not `ok`.
  pub warned_users_iff :
      (settings : Settings m) (users : List (Capped m)) (now : ℕ) (rows : List (Usage m)) (id : ℕ)
      → m.le
          (own_cap m settings (override_of users id))
          (m.mul (own_cap m settings (override_of users id)) settings.user_hard_cap_multiplier)
        ≡ true
      → Member id (warned_users m settings users now rows) ↔ (
          HasRow now rows id
          × (budget_decision m
                (cost_of m (is_todays m now id) rows)
                (own_cap m settings (override_of users id))
                settings.user_hard_cap_multiplier
              ≢ ok))
  unfolding warned_users
  warned_users_iff settings users now rows id h =
      let over =
        decision_not_ok (cost_of m (is_todays m now id) rows)
          (own_cap m settings (override_of users id)) settings.user_hard_cap_multiplier h in
      let same : test id
          ≡ m.le (own_cap m settings (override_of users id)) (cost_of m (is_todays m now id) rows) =
        ap (λ c. m.le c (today_user_cost_usd m now rows id)) (cap_for_lem settings users id)
        ∙ ap (m.le (own_cap m settings (override_of users id)))
            (today_user_cost_usd-eq m now rows id) in
      (
        (λ w.
            let (there, t) = Member-of_filter test (users_of m (todays m now rows)) id w in
            ((users-Member now id rows).0 there, over.0 (sym same ∙ t))),
        (λ w.
            Member-filter test (users_of m (todays m now rows)) id
              ((users-Member now id rows).1 w.0) (same ∙ over.1 w.1)),
      )
    where
      test : ℕ → Bool
      test n = m.le (cap_for m settings users n) (today_user_cost_usd m now rows n)
