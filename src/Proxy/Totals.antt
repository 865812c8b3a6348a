-- ===== src/Proxy/Totals.antt =====
-- The totals of the aggregator and of its flushes (internal/proxy/proxy.go).
use buktio.Base.{
  ℕ, ◌+◌, ◌≡◌, Bool, true, List, [], ◌∷◌, ◌++◌, arith, eq_iff, sum_of, select, if◌then◌else◌,
  Bool-cases, inl, inr,
}
use buktio.Proxy.{
  Key, Counters, Sample, Request, same_key, add, samples, drain, key_for, serve_http,
  length_of_body,
}

-- What happens to the aggregator: a request is served, with the bytes of its response, or a flush.
pub data Event : Type 0 where
  served : Request → ℕ → Event
  flushed : Event

-- The counters and the samples that were drained so far.
abbrev pub run : List Event → Counters → List Sample → Counters × List Sample
run [] cs out = (cs, out)
run (served r n ∷ es) cs out = run es (serve_http r n cs) out
run (flushed ∷ es) cs out = run es (drain cs).1 ((drain cs).0 ++ out)

-- The requests and the bytes of a key among samples.
abbrev pub requests_in : Key → List Sample → ℕ
requests_in k ss =
    sum_of (λ (s : Sample). s.requests) (select (λ (s : Sample). same_key s.key k) ss)

abbrev pub bytes_in_of : Key → List Sample → ℕ
bytes_in_of k ss =
    sum_of (λ (s : Sample). s.bytes_in) (select (λ (s : Sample). same_key s.key k) ss)

abbrev pub bytes_out_of : Key → List Sample → ℕ
bytes_out_of k ss =
    sum_of (λ (s : Sample). s.bytes_out) (select (λ (s : Sample). same_key s.key k) ss)

-- The requests of a key among the events, and their bytes.
abbrev pub served_by : Key → (Request → ℕ → ℕ) → List Event → ℕ
served_by k f [] = 0
served_by k f (served r n ∷ es) =
    let rest = served_by k f es in if same_key (key_for r) k then f r n + rest else rest
served_by k f (flushed ∷ es) = served_by k f es

module _ (k : Key) where
  same_key_trans : (a b : Key) → same_key a b ≡ true → same_key a k ≡ same_key b k
  same_key_trans a b h = ground (
    arith,
    eq_iff a.access_key_id b.access_key_id,
    eq_iff a.bucket b.bucket,
    eq_iff a.method b.method,
  )

  add_lem :
      (q : Key) (i o : ℕ) (cs : Counters)
      → (requests_in k (samples (add q i o cs))
          ≡ requests_in k (samples cs) + (if same_key q k then 1 else 0))
        × (bytes_in_of k (samples (add q i o cs))
            ≡ bytes_in_of k (samples cs) + (if same_key q k then i else 0))
        × (bytes_out_of k (samples (add q i o cs))
            ≡ bytes_out_of k (samples cs) + (if same_key q k then o else 0))
  unfolding add
  add_lem q i o [] = (ground arith, ground arith, ground arith)
  add_lem q i o ((p, c) ∷ cs) =
      let (a, b, d) = add_lem q i o cs in
      elim (Bool-cases (same_key p q)) [
        | inl e ↦ rw e (
          ground (arith, same_key_trans p q e),
          ground (arith, same_key_trans p q e),
          ground (arith, same_key_trans p q e),
        )
        | inr e ↦ rw e (ground (arith, a), ground (arith, b), ground (arith, d))
      ]

sum-append :
    (f : Sample → ℕ) (p : Sample → Bool) (xs ys : List Sample)
    → sum_of f (select p (xs ++ ys)) ≡ sum_of f (select p xs) + sum_of f (select p ys)
sum-append f p [] ys = omega arith
sum-append f p (x ∷ xs) ys = ground (arith, sum-append f p xs ys)

-- Whatever is served and flushed in whatever order: for each key, what was drained and what is
-- still counted is together what was counted or drained at the start and the requests, the bytes of
-- their bodies and those of their responses since.
pub run-conserves :
    (k : Key) (es : List Event) (cs : Counters) (out : List Sample)
    → let (cs', out') = run es cs out in
      (requests_in k (samples cs') + requests_in k out'
        ≡ requests_in k (samples cs) + requests_in k out + served_by k (λ r n. 1) es)
      × (bytes_in_of k (samples cs') + bytes_in_of k out'
          ≡ bytes_in_of k (samples cs)
            + bytes_in_of k out
            + served_by k (λ r n. length_of_body r.content_length) es)
      × (bytes_out_of k (samples cs') + bytes_out_of k out'
          ≡ bytes_out_of k (samples cs) + bytes_out_of k out + served_by k (λ r n. n) es)
unfolding serve_http drain
run-conserves k [] cs out = (omega arith, omega arith, omega arith)
run-conserves k (served r n ∷ es) cs out =
    let (a, b, d) = run-conserves k es (serve_http r n cs) out in
    let (x, y, z) = add_lem k (key_for r) (length_of_body r.content_length) n cs in
    (ground (arith, a, x), ground (arith, b, y), ground (arith, d, z))
run-conserves k (flushed ∷ es) cs out =
    let (a, b, d) = run-conserves k es [] (samples cs ++ out) in
    (
      ground (arith, a, sum-append (λ s. s.requests) (λ s. same_key s.key k) (samples cs) out),
      ground (arith, b, sum-append (λ s. s.bytes_in) (λ s. same_key s.key k) (samples cs) out),
      ground (arith, d, sum-append (λ s. s.bytes_out) (λ s. same_key s.key k) (samples cs) out),
    )
