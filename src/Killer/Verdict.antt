-- ===== src/Killer/Verdict.antt =====
-- The steps of `need_destroy` (lobbyboy/server_killer.py), and when they end in a destruction.
use lobbyboy.Base.{
  ℕ, ◌+◌, ◌≤◌, ◌<◌, ◌≡◌, ◌≢◌, ◌⊎◌, inl, inr, ap, ◌∙◌, Bool, true, String, arith, ◌==◌, given,
  Option, none, some, refl, Bool-cases,
}
use lobbyboy.Base.Int.{ℤ, pos, ◌≤ℤ◌, mod_pos}
use lobbyboy.Act.{Result, ok, bind-ok, Result-cases}
use lobbyboy.Duration.{to_seconds}
use lobbyboy.Config.Types.{ConfigProvider, ServerMeta}
use lobbyboy.Killer.{
  safe_seconds, remainder, bill_ttl, bill_verdict, life_ttl, life_verdict, by_bill, by_life, decide,
}

-- The safe time of a provider: none when it is not set, and else its text as a duration.
abbrev pub Margin : Option String → ℕ → Type 0
Margin none safe = safe ≡ 0
Margin (some text) safe = to_seconds (some text) ≡ ok safe

pub Margin-safe_seconds :
    (text : Option String) (safe : ℕ) → Margin text safe → safe_seconds text ≡ ok safe
unfolding safe_seconds
Margin-safe_seconds none safe h = rw (h) refl
Margin-safe_seconds (some text) safe h = h

pub safe_seconds-Margin :
    (text : Option String) (safe : ℕ) → safe_seconds text ≡ ok safe → Margin text safe
unfolding safe_seconds
safe_seconds-Margin none safe h = cc h
safe_seconds-Margin (some text) safe h = h

-- The billing cycle ends within the safe time.
pub record EndsSoon (config : ConfigProvider) (live : ℤ) : Type 0 where
  pub bill : ℕ
  pub safe : ℕ
  pub bill_set : to_seconds config.bill_time_unit ≡ ok bill
  pub safe_set : Margin (given config.destroy_safe_time) safe
  pub bill_pos : 0 < bill
  pub soon : bill ≤ mod_pos live bill + safe

pub record IsDue (config : ConfigProvider) (meta : ServerMeta) (sessions : ℕ) (live : ℤ)
    : Type 0 where
  pub unused : sessions ≡ 0
  pub managed : meta.manage ≡ true
  pub life : ℕ
  pub life_set : to_seconds config.min_life_to_live ≡ ok life
  pub over : (life ≡ 0) ⊎ ((pos life ≤ℤ live) × EndsSoon config live)

bill_verdict-true :
    (config : ConfigProvider) (bill used safe : ℕ) (reason : String)
    → bill_verdict config (bill_ttl bill used safe) ≡ (true, reason)
    → bill ≤ used + safe
unfolding bill_verdict bill_ttl
bill_verdict-true config bill used safe reason h = ground arith

bill_verdict_due :
    (config : ConfigProvider) (bill used safe : ℕ)
    → bill ≤ used + safe
    → bill_verdict config (bill_ttl bill used safe)
      ≡ (true, "is about to enter the next billing cycle.")
unfolding bill_verdict bill_ttl
bill_verdict_due config bill used safe h = ground arith

remainder_ok :
    (live : ℤ) (bill used : ℕ)
    → remainder live bill ≡ ok used
    → (0 < bill) × (used ≡ mod_pos live bill)
unfolding remainder
remainder_ok live bill used h = ground arith

by_bill-true :
    (config : ConfigProvider) (live : ℤ) (reason : String)
    → by_bill config live ≡ ok (true, reason)
    → EndsSoon config live
unfolding by_bill
by_bill-true config live reason h = elim (Result-cases (to_seconds config.bill_time_unit)) [
  | inr n ↦ let (bill, e, _) = bind-ok (to_seconds config.bill_time_unit) _ h in absurd (n bill e)
  | inl (bill, bill_set) ↦ elim (Result-cases (remainder live bill)) [
    | inr n ↦
        let (used, e, _) = bind-ok (remainder live bill) _ (rw (bill_set, by_bill) at h) in
        absurd (n used e)
    | inl (used, used_is) ↦ elim (Result-cases (safe_seconds (given config.destroy_safe_time))) [
      | inr n ↦
          let (safe, e, _) =
            bind-ok (safe_seconds (given config.destroy_safe_time)) _
              (rw (bill_set, used_is, by_bill) at h) in
          absurd (n safe e)
      | inl (safe, safe_set) ↦
          let same : ok (bill_verdict config (bill_ttl bill used safe)) ≡ ok (true, reason) =
            rw (bill_set, used_is, safe_set, by_bill) at h in
          let (bill_pos, used_mod) = remainder_ok live bill used used_is in
          record {
            bill = bill;
            safe = safe;
            bill_set = bill_set;
            safe_set = safe_seconds-Margin (given config.destroy_safe_time) safe safe_set;
            bill_pos = bill_pos;
            soon = rw used_mod at (bill_verdict-true config bill used safe reason (cc same));
          }
    ]
  ]
]

remainder_pos : (live : ℤ) (bill : ℕ) → 0 < bill → remainder live bill ≡ ok (mod_pos live bill)
unfolding remainder
remainder_pos live bill h = ground arith

by_bill_due :
    (config : ConfigProvider) (live : ℤ)
    → EndsSoon config live
    → by_bill config live ≡ ok (true, "is about to enter the next billing cycle.")
unfolding by_bill
by_bill_due config live d =
    let used_is : remainder live d.bill ≡ ok (mod_pos live d.bill) =
      remainder_pos live d.bill d.bill_pos in
    rw (d.bill_set, used_is, Margin-safe_seconds (given config.destroy_safe_time) d.safe d.safe_set)
      (ap ok (bill_verdict_due config d.bill (mod_pos live d.bill) d.safe d.soon))

life_verdict-true :
    (config : ConfigProvider) (life : ℕ) (live : ℤ) (otherwise : Result (Bool × String))
    (reason : String)
    → life_verdict config life live otherwise ≡ ok (true, reason)
    → (life ≡ 0) ⊎ ((pos life ≤ℤ live) × (otherwise ≡ ok (true, reason)))
unfolding life_verdict life_ttl
life_verdict-true config life live otherwise reason h = ground arith

life_verdict_zero :
    (config : ConfigProvider) (life : ℕ) (live : ℤ) (otherwise : Result (Bool × String))
    → life ≡ 0
    → life_verdict config life live otherwise ≡ ok (true, "min_life_to_live less or equal 0: 0.")
unfolding life_verdict
life_verdict_zero config life live otherwise h = ground arith

pub life_verdict_over :
    (config : ConfigProvider) (life : ℕ) (live : ℤ) (otherwise : Result (Bool × String))
    → life ≢ 0
    → pos life ≤ℤ live
    → life_verdict config life live otherwise ≡ otherwise
unfolding life_verdict life_ttl
life_verdict_over config life live otherwise h k = ground arith

by_life-true :
    (config : ConfigProvider) (live : ℤ) (reason : String)
    → by_life config live ≡ ok (true, reason)
    → (life : ℕ) × (to_seconds config.min_life_to_live ≡ ok life)
      × ((life ≡ 0) ⊎ ((pos life ≤ℤ live) × EndsSoon config live))
unfolding by_life
by_life-true config live reason h = elim (Result-cases (to_seconds config.min_life_to_live)) [
  | inr n ↦ let (life, e, _) = bind-ok (to_seconds config.min_life_to_live) _ h in absurd (n life e)
  | inl (life, set) ↦
      elim (life_verdict-true config life live (by_bill config live) reason
        (rw (set, by_life) at h)) [
          | inl zero ↦ (life, set, inl zero)
          | inr (over, e) ↦ (life, set, inr (over, by_bill-true config live reason e))
        ]
]

decide-true :
    (config : ConfigProvider) (meta : ServerMeta) (sessions : ℕ) (live : ℤ) (reason : String)
    → decide config meta sessions live ≡ ok (true, reason)
    → (sessions ≡ 0) × (meta.manage ≡ true) × (by_life config live ≡ ok (true, reason))
unfolding decide
decide-true config meta sessions live reason h = ground arith

pub decide-by_life :
    (config : ConfigProvider) (meta : ServerMeta) (sessions : ℕ) (live : ℤ)
    → sessions ≡ 0
    → meta.manage ≡ true
    → decide config meta sessions live ≡ by_life config live
unfolding decide
decide-by_life config meta sessions live h k = ground arith

pub decide-IsDue :
    (config : ConfigProvider) (meta : ServerMeta) (sessions : ℕ) (live : ℤ) (reason : String)
    → decide config meta sessions live ≡ ok (true, reason)
    → IsDue config meta sessions live
decide-IsDue config meta sessions live reason h =
    let (unused, managed, h') = decide-true config meta sessions live reason h in
    let (life, set, over) = by_life-true config live reason h' in
    record { unused = unused; managed = managed; life = life; life_set = set; over = over }

pub by_life_due :
    (config : ConfigProvider) (live : ℤ) (life : ℕ)
    → to_seconds config.min_life_to_live ≡ ok life
    → (life ≡ 0) ⊎ ((pos life ≤ℤ live) × EndsSoon config live)
    → (reason : String) × (by_life config live ≡ ok (true, reason))
unfolding by_life
by_life_due config live life set (inl zero) =
    ("min_life_to_live less or equal 0: 0.", rw set (life_verdict_zero config life live _ zero))
by_life_due config live life set (inr (over, soon)) = elim (Bool-cases (life == 0)) [
  | inl z ↦ (
    "min_life_to_live less or equal 0: 0.",
    rw set (life_verdict_zero config life live _ (ground arith)),
  )
  | inr p ↦ (
    "is about to enter the next billing cycle.",
    rw set (
        life_verdict_over config life live _ (λ e. ground arith) over
        ∙ by_bill_due config live soon),
  )
]
