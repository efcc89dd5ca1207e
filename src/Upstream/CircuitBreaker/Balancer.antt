-- ===== src/Upstream/CircuitBreaker/Balancer.antt =====
-- pkg/upstream/circuitbreaker.go, the balancer: `pick`, `up` and `RoundTrip`.
use parapet.Prelude.{
  ℕ, zero, suc, ◌+◌, List, Option, none, some, Bool, true, false, ◌==◌, if◌then◌else◌, length,
  get_elem?, set,
}
use parapet.Upstream.Gate.{up, index_at}
use parapet.Upstream.CircuitBreaker.Word.{next32}
use parapet.Upstream.CircuitBreaker.Config.{Config}
use parapet.Upstream.CircuitBreaker.Breaker.{
  Breaker, Admission, admit_closed, admit_probe, admit, release_probe, record_outcome,
}

-- The balancer after `init`. `gate` is `none` while no active health check is installed.
pub record Balancer : Type 0 where
  pub config : Config
  pub cursor : ℕ
  pub breakers : List Breaker
  pub gate : Option (List Bool)

-- What `pick` returns for a target: its index, the generation and the admission.
pub record Picked : Type 0 where
  pub index : ℕ
  pub gen : ℕ
  pub admission : Admission

-- `pick`'s loop, with the rounds that are left.
unfoldable pub scan :
    ℕ → Config → ℕ → ℕ → Option (List Bool) → ℕ → ℕ → List Breaker → List Breaker × Option Picked
scan zero c now clock gate start k bs = (bs, none)
scan (suc rounds) c now clock gate start k bs =
    let i = index_at start k (length bs) in
    elim (up gate i) [
      | false ↦ scan rounds c now clock gate start (k + 1) bs
      | true ↦ elim (get_elem? bs i) [
        | none ↦ scan rounds c now clock gate start (k + 1) bs
        | some b ↦
            let (b', answer) = admit c now clock b in
            elim answer [
              | none ↦ scan rounds c now clock gate start (k + 1) (set bs i b')
              | some verdict ↦ elim verdict [
                | none ↦ scan rounds c now clock gate start (k + 1) (set bs i b')
                | some (gen, adm) ↦
                    (set bs i b', some (record { index = i; gen = gen; admission = adm }))
              ]
            ]
      ]
    ]

unfoldable pub pick : ℕ → ℕ → Balancer → Balancer × Option Picked
unfolding scan
pick now clock l =
    let (bs, picked) = scan (length l.breakers) l.config now clock l.gate l.cursor 0 l.breakers in
    (record l { cursor = next32 l.cursor; breakers = bs }, picked)

-- What the chosen target's transport does: it panics, or returns with `failed`'s verdict.
pub data Trip : Type 0 where
  panics : Trip
  returns : Bool → Trip

pub data Reply : Type 0 where
  unavailable : Reply
  unwound : ℕ → Reply
  forwarded : ℕ → Bool → Reply

-- The deferred release runs for a probe only; on the normal path the outcome is recorded.
unfoldable pub settle : Config → ℕ → Picked → Trip → Breaker → Breaker
settle c later p panics b = elim p.admission [
  | admit_probe ↦ release_probe b p.gen
  | admit_closed ↦ b
]
settle c later p (returns failed) b = record_outcome c later b p.gen p.admission failed

unfoldable pub reply_of : Picked → Trip → Reply
reply_of p panics = unwound p.index
reply_of p (returns failed) = forwarded p.index failed

-- `later` is the clock's reading when the transport is done.
unfoldable pub round_trip : (ℕ → Trip) → ℕ → ℕ → ℕ → Balancer → Balancer × Reply
unfolding pick settle reply_of
round_trip transport now clock later l =
    if length l.breakers == 0
    then (l, unavailable)
    else (let (l', picked) = pick now clock l in
        elim picked [
          | none ↦ (l', unavailable)
          | some p ↦ elim (get_elem? l'.breakers p.index) [
            | none ↦ (l', unavailable)
            | some b ↦ (
              record l' {
                breakers = set l'.breakers p.index (settle l.config later p (transport p.index) b);
              },
              reply_of p (transport p.index),
            )
          ]
        ])
