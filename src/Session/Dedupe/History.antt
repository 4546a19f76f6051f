-- ===== src/Session/Dedupe/History.antt =====
-- The specification of `claim`: the whole history of the ids that were let through, never purged.
use butterstack_connector.Prelude.{
  ℕ, ◌-◌, ◌≤◌, ◌≡◌, inl, inr, refl, sym, ap, ◌∙◌, Bool, true, false, ◌&&◌, ◌||◌, not, List, [], ◌∷◌,
  Option, none, some, Bytes, if◌then◌else◌, ltb, leb, length, bytes_eq, bytes_eq_sound,
  bytes_eq_refl, arith, Bool-cases, Option-cases,
}
use butterstack_connector.Session.Limits.{dedupe_window, dedupe_max_keys}
use butterstack_connector.Session.Dedupe.{Seen, seen_at, mark_seen, purge, trim_seen, claim, claims}

-- The history lets an id through unless it let the same id through within the window.
pub was_recent : ℕ → Bytes → List (Bytes × ℕ) → Bool
was_recent now id [] = false
was_recent now id ((j, t) ∷ h) =
    (bytes_eq j id && leb (now - t) dedupe_window) || was_recent now id h

pub history_answers : List (ℕ × Bytes) → List (Bytes × ℕ) → List Bool
unfolding was_recent
history_answers [] h = []
history_answers ((now, id) ∷ cs) h =
    let fresh = not (was_recent now id h) in
    fresh ∷ history_answers cs (if fresh then (id, now) ∷ h else h)

-- The times do not fall.
abbrev pub Monotone : ℕ → List (ℕ × Bytes) → Type 0
Monotone since [] = Unit
Monotone since ((now, id) ∷ cs) = (since ≤ now) × Monotone now cs

-- What the map says of an id.
is_recent : ℕ → Option ℕ → Bool
is_recent now none = false
is_recent now (some t) = leb (now - t) dedupe_window

-- From `now` on the map and the history agree.
Agrees : ℕ → Seen → List (Bytes × ℕ) → Type 0
Agrees now seen h =
    (later : ℕ) (id : Bytes)
    → now ≤ later
    → is_recent later (seen_at seen id) ≡ was_recent later id h

pub seen_at-mark_seen :
    (m : Seen) (id j : Bytes) (t : ℕ)
    → seen_at (mark_seen id t m) j ≡ (if bytes_eq id j then some t else seen_at m j)
unfolding seen_at mark_seen
seen_at-mark_seen [] id j t = refl
seen_at-mark_seen ((k, u) ∷ m) id j t = elim (Bool-cases (bytes_eq k id)) [
  | inl e ↦
      let same : k ≡ id = bytes_eq_sound k id e in
      rw e (ground (arith, ap (λ x. bytes_eq x j) same))
  | inr n ↦ elim (Bool-cases (bytes_eq k j)) [
    | inl e ↦ elim (Bool-cases (bytes_eq id j)) [
      | inl f ↦
          let same : k ≡ id = bytes_eq_sound k j e ∙ sym (bytes_eq_sound id j f) in
          let hit : bytes_eq k id ≡ true = rw same (bytes_eq_refl id) in cc
      | inr f ↦ rw (n, f) (rw e)
    ]
    | inr f ↦ rw n (rw f (seen_at-mark_seen m id j t))
  ]
]

-- Each id has one entry.
Distinct : Seen → Type 0
Distinct [] = Unit
Distinct ((j, t) ∷ m) = (seen_at m j ≡ none) × Distinct m

seen_at-purge-none :
    (now : ℕ) (m : Seen) (id : Bytes) → seen_at m id ≡ none → seen_at (purge now m) id ≡ none
unfolding seen_at purge
seen_at-purge-none now [] id h = refl
seen_at-purge-none now ((j, t) ∷ m) id h = ground (arith, seen_at-purge-none now m id)

purge-Distinct : (now : ℕ) (m : Seen) → Distinct m → Distinct (purge now m)
unfolding Distinct purge
purge-Distinct now [] d = tt
purge-Distinct now ((j, t) ∷ m) d = elim (Bool-cases (ltb dedupe_window (now - t))) [
  | inl e ↦ rw (e, purge) (purge-Distinct now m d.1)
  | inr n ↦ rw (n, purge) (seen_at-purge-none now m j d.0, purge-Distinct now m d.1)
]

mark_seen-Distinct : (id : Bytes) (now : ℕ) (m : Seen) → Distinct m → Distinct (mark_seen id now m)
unfolding Distinct mark_seen
mark_seen-Distinct id now [] d = unfold seen_at in (refl, tt)
mark_seen-Distinct id now ((j, t) ∷ m) d = elim (Bool-cases (bytes_eq j id)) [
  | inl e ↦ rw (e, mark_seen) (rw (bytes_eq_sound j id e) at d.0, d.1)
  | inr n ↦
      rw (n, mark_seen)
        (
          (seen_at-mark_seen m id j now)
              ∙ (let differ : bytes_eq id j ≡ false = elim (Bool-cases (bytes_eq id j)) [
                | inl f ↦
                    let hit : bytes_eq j id ≡ true = rw (bytes_eq_sound id j f) (bytes_eq_refl j) in
                    cc
                | inr f ↦ f
              ] in
                  rw differ d.0),
          mark_seen-Distinct id now m d.1,
        )
]

-- The purge drops only what is too old to matter, now and later.
is_recent-purge :
    (now later : ℕ) (m : Seen) (id : Bytes)
    → now ≤ later
    → Distinct m
    → is_recent later (seen_at (purge now m) id) ≡ is_recent later (seen_at m id)
unfolding Distinct purge seen_at is_recent
is_recent-purge now later [] id le d = refl
is_recent-purge now later ((j, t) ∷ m) id le d = elim (Bool-cases (bytes_eq j id)) [
  | inl same ↦
      let gone : seen_at (purge now m) id ≡ none =
        seen_at-purge-none now m id (rw (bytes_eq_sound j id same) at d.0) in
      ground arith
  | inr differ ↦ ground (arith, is_recent-purge now later m id le d.1)
]

is_recent-trim_seen :
    (now later : ℕ) (m : Seen) (id : Bytes)
    → now ≤ later
    → Distinct m
    → is_recent later (seen_at (trim_seen now m) id) ≡ is_recent later (seen_at m id)
is_recent-trim_seen now later m id le d = elim (Bool-cases (ltb dedupe_max_keys (length m))) [
  | inl e ↦ rw e (is_recent-purge now later m id le d)
  | inr n ↦ rw n
]

trim_seen-Distinct : (now : ℕ) (m : Seen) → Distinct m → Distinct (trim_seen now m)
trim_seen-Distinct now m d = elim (Bool-cases (ltb dedupe_max_keys (length m))) [
  | inl e ↦ rw e (purge-Distinct now m d)
  | inr n ↦ rw n d
]

-- The answer of `claim` and the map that it leaves, by what the trimmed map says of the id.
claim_refused :
    (now : ℕ) (id : Bytes) (m : Seen)
    → is_recent now (seen_at (trim_seen now m) id) ≡ true
    → claim now id m ≡ (false, trim_seen now m)
unfolding claim is_recent
claim_refused now id m h = elim (Option-cases (seen_at (trim_seen now m) id)) [
  | inl e ↦ cc (rw e at h)
  | inr (t, e) ↦ rw (e, claim) (rw (rw e at h))
]

claim_fresh :
    (now : ℕ) (id : Bytes) (m : Seen)
    → is_recent now (seen_at (trim_seen now m) id) ≡ false
    → claim now id m ≡ (true, mark_seen id now (trim_seen now m))
unfolding claim is_recent
claim_fresh now id m h = elim (Option-cases (seen_at (trim_seen now m) id)) [
  | inl e ↦ rw (e, claim)
  | inr (t, e) ↦ rw (e, claim) (rw (rw e at h))
]

was_recent_mono :
    (now later : ℕ) (id : Bytes) (h : List (Bytes × ℕ))
    → now ≤ later
    → was_recent now id h ≡ false
    → was_recent later id h ≡ false
unfolding was_recent
was_recent_mono now later id [] le e = refl
was_recent_mono now later id ((j, t) ∷ h) le e = ground (arith, was_recent_mono now later id h le)

Agrees-trim_seen :
    (now : ℕ) (m : Seen) (h : List (Bytes × ℕ))
    → Distinct m
    → Agrees now m h
    → Agrees now (trim_seen now m) h
unfolding Agrees
Agrees-trim_seen now m h d a later id le = is_recent-trim_seen now later m id le d ∙ a later id le

Agrees-mark_seen :
    (now : ℕ) (id : Bytes) (m : Seen) (h : List (Bytes × ℕ))
    → Agrees now m h
    → was_recent now id h ≡ false
    → Agrees now (mark_seen id now m) ((id, now) ∷ h)
unfolding Agrees
Agrees-mark_seen now id m h a fresh later j le = elim (Bool-cases (bytes_eq id j)) [
  | inl e ↦
      let old : was_recent later j h ≡ false =
        rw (bytes_eq_sound id j e) at (was_recent_mono now later id h le fresh) in
      rw (seen_at-mark_seen m id j now, e) (unfold was_recent is_recent in ground (arith, old))
  | inr n ↦ rw (seen_at-mark_seen m id j now, n) (a later j le ∙ (unfold was_recent in rw n))
]

Agrees-later :
    (now later : ℕ) (m : Seen) (h : List (Bytes × ℕ))
    → now ≤ later
    → Agrees now m h
    → Agrees later m h
unfolding Agrees
Agrees-later now later m h le a last id le' = a last id (omega arith)

claims_step :
    (now : ℕ) (id : Bytes) (cs : List (ℕ × Bytes)) (m m' : Seen) (b : Bool)
    → claim now id m ≡ (b, m')
    → claims ((now, id) ∷ cs) m ≡ b ∷ claims cs m'
unfolding claims
claims_step now id cs m m' b e = rw e

history_step :
    (now : ℕ) (id : Bytes) (cs : List (ℕ × Bytes)) (h : List (Bytes × ℕ)) (b : Bool)
    → was_recent now id h ≡ b
    → history_answers ((now, id) ∷ cs) h
      ≡ not b ∷ history_answers cs (if not b then (id, now) ∷ h else h)
unfolding history_answers
history_step now id cs h b e = rw (e, history_answers)

claims-history :
    (cs : List (ℕ × Bytes)) (since : ℕ) (m : Seen) (h : List (Bytes × ℕ))
    → Monotone since cs
    → Distinct m
    → Agrees since m h
    → claims cs m ≡ history_answers cs h
claims-history [] since m h mono d a = unfold claims history_answers in refl
claims-history ((now, id) ∷ cs) since m h mono d a =
    let trimmed : Agrees now (trim_seen now m) h =
      Agrees-trim_seen now m h d (Agrees-later since now m h mono.0 a) in
    let d' : Distinct (trim_seen now m) = trim_seen-Distinct now m d in
    let says : is_recent now (seen_at (trim_seen now m) id) ≡ was_recent now id h =
      unfold Agrees in trimmed now id (omega arith) in
    elim (Bool-cases (was_recent now id h)) [
      | inl e ↦
          claims_step now id cs m (trim_seen now m) false (claim_refused now id m (says ∙ e))
          ∙ ap (◌∷◌ false) (claims-history cs now (trim_seen now m) h mono.1 d' trimmed)
          ∙ sym (history_step now id cs h true e)
      | inr e ↦
          claims_step now id cs m (mark_seen id now (trim_seen now m)) true
            (claim_fresh now id m (says ∙ e))
          ∙ ap (◌∷◌ true) (
              claims-history cs now (mark_seen id now (trim_seen now m)) ((id, now) ∷ h) mono.1
                (mark_seen-Distinct id now (trim_seen now m) d')
                (Agrees-mark_seen now id (trim_seen now m) h trimmed e))
          ∙ sym (history_step now id cs h false e)
    ]

-- Over any claims in the order of time, `claim` with its purged map answers as the full history
-- does: an id is refused exactly when it was let through within the last ten minutes.
pub claims-history_answers :
    (cs : List (ℕ × Bytes)) → Monotone 0 cs → claims cs [] ≡ history_answers cs []
claims-history_answers cs mono =
    claims-history cs 0 [] [] mono (unfold Distinct in tt)
      (unfold Agrees seen_at is_recent was_recent in λ later id le. refl)
