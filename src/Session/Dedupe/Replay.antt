-- ===== src/Session/Dedupe/Replay.antt =====
-- A replay within the window is refused, in whatever order concurrent commands reach the lock.
use butterstack_connector.Prelude.{
  ℕ, ◌+◌, ◌-◌, ◌≤◌, ◌≡◌, inl, inr, ap, ◌∙◌, Bool, true, false, List, [], ◌∷◌, some, Bytes, ltb, leb,
  length, bytes_eq, bytes_eq_sound, bytes_eq_refl, arith, All, Bool-cases, Option-cases,
}
use butterstack_connector.Session.Limits.{dedupe_window, dedupe_max_keys}
use butterstack_connector.Session.Dedupe.{Seen, seen_at, mark_seen, purge, trim_seen, claim}
use butterstack_connector.Session.Dedupe.History.{seen_at-mark_seen}

-- The map after claims in the order in which they take the lock.
unfoldable pub after_claims : List (ℕ × Bytes) → Seen → Seen
after_claims [] m = m
after_claims ((now, id) ∷ cs) m = after_claims cs (claim now id m).1

seen_at-purge :
    (now t : ℕ) (id : Bytes) (m : Seen)
    → now ≤ t + dedupe_window
    → seen_at m id ≡ some t
    → seen_at (purge now m) id ≡ some t
unfolding seen_at purge
seen_at-purge now t id [] w h = cc
seen_at-purge now t id ((j, u) ∷ m) w h = ground (arith, seen_at-purge now t id m w)

seen_at-trim_seen :
    (now t : ℕ) (id : Bytes) (m : Seen)
    → now ≤ t + dedupe_window
    → seen_at m id ≡ some t
    → seen_at (trim_seen now m) id ≡ some t
seen_at-trim_seen now t id m w h = elim (Bool-cases (ltb dedupe_max_keys (length m))) [
  | inl e ↦ rw e (seen_at-purge now t id m w h)
  | inr n ↦ rw n h
]

claim-marks :
    (now : ℕ) (id : Bytes) (m : Seen)
    → (claim now id m).0 ≡ true
    → (claim now id m).1 ≡ mark_seen id now (trim_seen now m)
unfolding claim
claim-marks now id m h = elim (Option-cases (seen_at (trim_seen now m) id)) [
  | inl e ↦ rw (e, claim)
  | inr (t, e) ↦ rw (e, claim) (let h' = rw (e, claim) at h in ground arith)
]

pub refused :
    (now t : ℕ) (id : Bytes) (m : Seen)
    → now ≤ t + dedupe_window
    → seen_at m id ≡ some t
    → claim now id m ≡ (false, trim_seen now m)
unfolding claim
refused now t id m w h = rw (seen_at-trim_seen now t id m w h, claim) (ground arith)

other_kept :
    (now t : ℕ) (id j : Bytes) (m : Seen)
    → now ≤ t + dedupe_window
    → seen_at m id ≡ some t
    → bytes_eq j id ≡ false
    → seen_at (claim now j m).1 id ≡ some t
unfolding claim
other_kept now t id j m w h n =
    let kept : seen_at (trim_seen now m) id ≡ some t = seen_at-trim_seen now t id m w h in
    let marked : seen_at (mark_seen j now (trim_seen now m)) id ≡ some t =
      seen_at-mark_seen (trim_seen now m) j id now ∙ rw n kept in
    elim (Option-cases (seen_at (trim_seen now m) j)) [
      | inl e ↦ rw (e, claim) marked
      | inr (u, e) ↦
          rw (e, claim)
            (elim (Bool-cases (leb (now - u) dedupe_window)) [
              | inl r ↦ rw r kept
              | inr r ↦ rw r marked
            ])
    ]

pub claim_kept :
    (now t : ℕ) (id j : Bytes) (m : Seen)
    → now ≤ t + dedupe_window
    → seen_at m id ≡ some t
    → seen_at (claim now j m).1 id ≡ some t
claim_kept now t id j m w h = elim (Bool-cases (bytes_eq j id)) [
  | inl e ↦ rw (bytes_eq_sound j id e) (
      ap (λ (r : Bool × Seen). seen_at r.1 id) (refused now t id m w h)
      ∙ seen_at-trim_seen now t id m w h)
  | inr n ↦ other_kept now t id j m w h n
]

after_claims_kept :
    (cs : List (ℕ × Bytes)) (t : ℕ) (id : Bytes) (m : Seen)
    → All (λ c. c.0 ≤ t + dedupe_window) cs
    → seen_at m id ≡ some t
    → seen_at (after_claims cs m) id ≡ some t
unfolding after_claims
after_claims_kept [] t id m w h = h
after_claims_kept ((now, j) ∷ cs) t id m w h =
    after_claims_kept cs t id (claim now j m).1 w.1 (claim_kept now t id j m w.0 h)

pub claim-seen_at :
    (t : ℕ) (id : Bytes) (m : Seen) → (claim t id m).0 ≡ true → seen_at (claim t id m).1 id ≡ some t
claim-seen_at t id m fresh =
    rw (claim-marks t id m fresh)
      (seen_at-mark_seen (trim_seen t m) id id t ∙ rw (bytes_eq_refl id))

-- Once an id has been let through, it is refused until the window has passed, whatever other
-- claims come in between and in whatever order of their times.
pub claim_replay :
    (t now : ℕ) (id : Bytes) (m : Seen) (cs : List (ℕ × Bytes))
    → (claim t id m).0 ≡ true
    → All (λ c. c.0 ≤ t + dedupe_window) cs
    → now ≤ t + dedupe_window
    → (claim now id (after_claims cs (claim t id m).1)).0 ≡ false
claim_replay t now id m cs fresh w le =
    ap (λ r. r.0)
      (refused now t id (after_claims cs (claim t id m).1) le
        (after_claims_kept cs t id (claim t id m).1 w (claim-seen_at t id m fresh)))
