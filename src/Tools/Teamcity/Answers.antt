-- ===== src/Tools/Teamcity/Answers.antt =====
-- When `get` of internal/tools/teamcity.go succeeds.
use Prim.Native.Nat.{min}
use butterstack_connector.Prelude.{
  ℕ, zero, suc, ◌+◌, ◌≤◌, ◌≡◌, inl, inr, refl, sym, ap, ◌∙◌, Bool, true, false, [], ◌∷◌, ◌++◌, none,
  Bytes, codes, arith, length, length-take, take, ltb, ◌==◌, ==_iff, Bool-cases, Option-cases, ok,
  err, Except-cases,
}
use butterstack_connector.Prelude.Int.{ℤ}
use butterstack_connector.Protocol.{Store}
use butterstack_connector.Tools.Teamcity.Connection.{Response, Send, Web, Teamcity}
use butterstack_connector.Tools.Teamcity.{
  Got, got_error, after_decode, request_of, choose_limit, read_limited, decode_body, judge, answer,
  receive, get,
}

take-take-suc : (n : ℕ) (s : Bytes) → take n (take (suc n) s) ≡ take n s
take-take-suc zero s = refl
take-take-suc (suc n) [] = refl
take-take-suc (suc n) (c ∷ s) = ap (◌∷◌ c) (take-take-suc n s)

take-take_plus : (n : ℕ) (s : Bytes) → take n (take (n + 1) s) ≡ take n s
take-take_plus n s = ap (λ k. take n (take k s)) {y = suc n} (omega arith) ∙ take-take-suc n s

still_over :
    (n : ℕ) (s : Bytes)
    → ltb n (length s) ≡ true
    → ltb n (length (take (n + 1) s)) ≡ ltb n (length s)
still_over n s h = ground (arith, length-take (n + 1) s)

-- What is read tells what the whole body would.
read_limited_lem :
    (limit : ℕ) (r : Response) (body : Bytes)
    → read_limited limit r ≡ ok body
    → (ltb limit (length body) ≡ ltb limit (length r.body)) × (take limit body ≡ take limit r.body)
unfolding read_limited
read_limited_lem limit r body h = elim (Bool-cases (ltb limit (length r.body))) [
  | inl over ↦
      let is : take (limit + 1) r.body ≡ body = (let h' = rw over at h in ground arith) in
      (
        ap (λ b. ltb limit (length b)) (sym is) ∙ still_over limit r.body over,
        ap (take limit) (sym is) ∙ take-take_plus limit r.body,
      )
  | inr fits ↦ elim (Option-cases r.broken) [
    | inl fine ↦
        let is : r.body ≡ body = (let h' = rw (fits, fine) at h in ground arith) in
        (ap (λ b. ltb limit (length b)) (sym is), ap (take limit) (sym is))
    | inr (e, broken) ↦ let h' = rw (fits, broken) at h in cc h'
  ]
]

module _ {S : Type 0} (web : Web) (store : Store S) (zero' : S) (limit : ℕ) where
  -- A response from which the value was decoded.
  pub record IsDecoded (resp : Response) (g : Got S) : Type 0 where
    pub status : resp.status ≡ 200
    pub value : decode_body web store zero' (take limit resp.body) ≡ (g.value, false)
    pub size : g.size ≡ min limit (length resp.body)
    pub truncated : g.truncated ≡ ltb limit (length resp.body)

  decoded_lem :
      (n : ℕ) (truncated : Bool) (a : S × Bool)
      → (after_decode n truncated a).error ≡ none
      → (a ≡ ((after_decode n truncated a).value, false))
        × ((after_decode n truncated a).truncated ≡ truncated)
  decoded_lem n truncated (s, false) h = (refl, refl)
  decoded_lem n true (s, true) h = cc
  decoded_lem n false (s, true) h = cc

  decoded_size : (n : ℕ) (truncated : Bool) (a : S × Bool) → (after_decode n truncated a).size ≡ n
  decoded_size n truncated (s, false) = refl
  decoded_size n true (s, true) = refl
  decoded_size n false (s, true) = refl

  judge_size :
      (status : ℕ) (truncated : Bool) (body : Bytes)
      → (judge web store zero' status truncated body).size ≡ length body
  unfolding judge
  judge_size status truncated body = elim (Bool-cases (status == 200)) [
    | inl e ↦ rw e (decoded_size (length body) truncated (decode_body web store zero' body))
    | inr n ↦ rw n refl
  ]

  judge_lem :
      (status : ℕ) (truncated : Bool) (body : Bytes)
      → (judge web store zero' status truncated body).error ≡ none
      → (status ≡ 200)
        × (decode_body web store zero' body
            ≡ ((judge web store zero' status truncated body).value, false))
        × ((judge web store zero' status truncated body).truncated ≡ truncated)
  unfolding judge
  judge_lem status truncated body h = elim (Bool-cases (status == 200)) [
    | inl e ↦
        let (value, kept) =
          decoded_lem (length body) truncated (decode_body web store zero' body) (rw e at h) in
        ((==_iff status 200).0 e, rw e value, rw e kept)
    | inr n ↦ let h' = rw n at h in cc h'
  ]

  answer_size : (resp : Response) → (answer web store zero' limit resp).size ≤ limit
  unfolding answer
  answer_size resp = elim (Except-cases (read_limited limit resp)) [
    | inl (e, is) ↦ rw (is, answer) (omega arith)
    | inr (body, is) ↦
        rw (is, answer)
          (omega (
            arith,
            judge_size resp.status (ltb limit (length body)) (take limit body),
            length-take limit body,
          ))
  ]

  answer_reads :
      (resp : Response) (body : Bytes)
      → read_limited limit resp ≡ ok body
      → answer web store zero' limit resp
        ≡ judge web store zero' resp.status (ltb limit (length body)) (take limit body)
  unfolding answer
  answer_reads resp body is = rw (is, answer) refl

  read_fails :
      (resp : Response) (e : Bytes)
      → read_limited limit resp ≡ err e
      → answer web store zero' limit resp ≡ got_error zero' 0 false (codes "read: " ++ e)
  unfolding answer
  read_fails resp e is = rw (is, answer) refl

  answer-IsDecoded :
      (resp : Response)
      → (answer web store zero' limit resp).error ≡ none
      → IsDecoded resp (answer web store zero' limit resp)
  answer-IsDecoded resp h = elim (Except-cases (read_limited limit resp)) [
    | inl (e, is) ↦ cc (h, ap (λ (g : Got S). g.error) (read_fails resp e is))
    | inr (body, is) ↦
        let same = answer_reads resp body is in
        let (over, taken) = read_limited_lem limit resp body is in
        let (status, value, kept) =
          judge_lem resp.status (ltb limit (length body)) (take limit body)
            (ap (λ (g : Got S). g.error) (sym same) ∙ h) in
        rw same (record {
          status = status;
          value = ap (decode_body web store zero') (sym taken) ∙ value;
          size =
              judge_size resp.status (ltb limit (length body)) (take limit body)
              ∙ ap length taken
              ∙ length-take limit resp.body;
          truncated = kept ∙ over;
        })
  ]

module _ {S : Type 0} (web : Web) (send : Send) (t : Teamcity) (store : Store S) (zero' : S) where
  -- `get` succeeds only when the server answers with status 200 and the first `max_bytes` bytes of
  -- the body decode, which are then the value; it reports how many they are, and whether there were
  -- more. On every path, a failure's too, it reports no more bytes than the budget.
  pub get-IsDecoded :
      (path fields : Bytes) (max_bytes : ℤ)
      → ((get web send t store zero' path fields max_bytes).0.size ≤ choose_limit max_bytes)
        × ((get web send t store zero' path fields max_bytes).0.error ≡ none
            → (resp : Response) × (send t.client (request_of t path fields) ≡ ok resp)
              × IsDecoded web store zero'
                  (choose_limit max_bytes)
                  resp
                  (get web send t store zero' path fields max_bytes).0)
  unfolding get receive
  get-IsDecoded path fields max_bytes = elim (Option-cases (web.make (request_of t path fields))) [
    | inr (e, is) ↦ rw (is, get) (omega arith, λ h. cc h)
    | inl fine ↦ elim (Except-cases (send t.client (request_of t path fields))) [
      | inl (e, is) ↦ rw (fine, get) (rw (is, receive) (omega arith, λ h. cc h))
      | inr (resp, is) ↦
          rw (fine, get)
            (rw (is, receive)
              (
                answer_size web store zero' (choose_limit max_bytes) resp,
                λ h. (resp, refl, answer-IsDecoded web store zero' (choose_limit max_bytes) resp h),
              ))
    ]
  ]
