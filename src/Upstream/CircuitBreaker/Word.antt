-- ===== src/Upstream/CircuitBreaker/Word.antt =====
-- pkg/upstream/circuitbreaker.go, the packed word: gen<<24 | probes<<2 | state in a uint64.
use parapet.Prelude.{ℕ, ◌+◌, ◌-◌, ◌*◌, ◌/◌, ◌%◌, ◌^◌, ◌≤◌, ◌<◌, ◌≡◌, arith}

abbrev pub cb_closed : ℕ
cb_closed = 0

abbrev pub cb_open : ℕ
cb_open = 1

abbrev pub cb_half_open : ℕ
cb_half_open = 2

-- The increment unit of the probes field.
abbrev pub cb_probe_one : ℕ
cb_probe_one = 4

abbrev pub cb_max_probes : ℕ
cb_max_probes = 2 ^ 22 - 1

-- A uint32 counter's next value.
abbrev pub next32 : ℕ → ℕ
next32 n = (n + 1) % 2 ^ 32

-- The fields do not overlap while probes < 2^22 and state < 4, and there `|` is `+`.
unfoldable pub cb_pack : ℕ → ℕ → ℕ → ℕ
cb_pack gen probes state = gen * 2 ^ 24 + probes * 4 + state

-- The fields of a word: `uint32(v >> 24)`, `(v & mask) >> 2` and `v & 3`.
pub record Fields : Type 0 where
  pub gen : ℕ
  pub probes : ℕ
  pub state : ℕ

unfoldable pub cb_unpack : ℕ → Fields
cb_unpack v = record { gen = v / 2 ^ 24 % 2 ^ 32; probes = v / 4 % 2 ^ 22; state = v % 4 }

-- The word is a faithful record of its fields: packing fields that fit their widths and unpacking
-- gives them back, in a word of 56 bits.
pub unpack-pack :
    (gen probes state : ℕ)
    → gen < 2 ^ 32
    → probes ≤ cb_max_probes
    → state < 4
    → (cb_unpack (cb_pack gen probes state) ≡ record { gen = gen; probes = probes; state = state })
      × (cb_pack gen probes state < 2 ^ 56)
unfolding cb_unpack cb_pack
unpack-pack gen probes state g p s = (ground arith, omega arith)

-- A claim adds one probe and a release takes one off: the other fields stay.
pub unpack-claim :
    (v : ℕ)
    → (cb_unpack v).probes < cb_max_probes
    → cb_unpack (v + cb_probe_one) ≡ record (cb_unpack v) { probes = (cb_unpack v).probes + 1 }
unfolding cb_unpack
unpack-claim v h = ground arith

pub unpack-release :
    (v : ℕ)
    → 0 < (cb_unpack v).probes
    → cb_unpack (v - cb_probe_one) ≡ record (cb_unpack v) { probes = (cb_unpack v).probes - 1 }
unfolding cb_unpack
unpack-release v h = ground arith
