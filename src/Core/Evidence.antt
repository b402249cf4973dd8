-- ===== src/Core/Evidence.antt =====
-- What a displayed state of Core rests on.
use justverify.Common.{
  ℕ, ◌+◌, ◌*◌, ◌≤◌, ◌<◌, ◌≡◌, ◌≢◌, refl, ◌↔◌, Option, none, some, Bool, true, false, ◌||◌, arith,
  Field, sym, ◌∙◌, ◌⊎◌, inl, inr, Option-cases, max_safe_integer, if◌then◌else◌, ltb, some_of_ne,
  safe_natural, safe_natural-eq_some,
}
use justverify.Core.{SyncState, syncing, delayed, synced, ChainInfo, Sample, Snapshot, state}

-- A snapshot with a fresh sample without error, whose chain has these heights.
pub record Shows (s : Snapshot) (now : ℕ) (ibd : Bool) (blocks headers : ℕ) : Type 0 where
  pub sample : Sample
  pub chain : ChainInfo
  pub collected : ℕ
  pub updated : ℕ
  pub collected_at : s.collected ≡ some collected
  pub sampled : s.getblockchaininfo ≡ some sample
  pub updated_at : sample.updated ≡ some updated
  pub no_error : sample.error ≡ false
  pub valued : sample.value ≡ some chain
  pub ibd_known : chain.initialblockdownload ≡ some ibd
  pub blocks_known : chain.blocks ≡ Field.whole blocks
  pub headers_known : chain.headers ≡ Field.whole headers
  pub collected_set : 0 < collected
  pub updated_set : 0 < updated
  pub collected_recent : now ≤ collected * 1000 + 15000
  pub updated_recent : now ≤ updated * 1000 + 15000
  pub ordered : blocks ≤ headers
  pub fits : headers ≤ max_safe_integer

abbrev pub verdict : Bool → ℕ → ℕ → SyncState
verdict ibd blocks headers = if ibd || ltb blocks headers then syncing else synced

state-Shows :
    (s : Snapshot) (now : ℕ) (ibd : Bool) (blocks headers : ℕ)
    → Shows s now ibd blocks headers
    → state (some s) now false ≡ verdict ibd blocks headers
unfolding state
state-Shows s now ibd blocks headers e = ground arith

module _ (s : Snapshot) (now : ℕ) (shown : state (some s) now false ≡ delayed → ⊥) where
  has_sample : (s.collected ≡ none → ⊥) × (s.getblockchaininfo ≡ none → ⊥)
  unfolding state
  has_sample = ground arith

  module _ (c : ℕ) (sample : Sample) (hc : s.collected ≡ some c)
      (hs : s.getblockchaininfo ≡ some sample) where
    has_value : (sample.updated ≡ none → ⊥) × (sample.value ≡ none → ⊥)
    unfolding state
    has_value = ground arith

    has_chain :
        (u : ℕ) (chain : ChainInfo)
        → sample.updated ≡ some u
        → sample.value ≡ some chain
        → (chain.initialblockdownload ≡ none → ⊥)
          × (safe_natural chain.blocks ≡ none → ⊥)
          × (safe_natural chain.headers ≡ none → ⊥)
    unfolding state
    has_chain u chain hu hv = ground arith

    module _ (u : ℕ) (chain : ChainInfo) (ibd : Bool) (b h : ℕ) (hu : sample.updated ≡ some u)
        (hv : sample.value ≡ some chain) (hi : chain.initialblockdownload ≡ some ibd)
        (hb : safe_natural chain.blocks ≡ some b) (hh : safe_natural chain.headers ≡ some h) where
      bounds :
          (0 < c)
          × (0 < u)
          × (now ≤ c * 1000 + 15000)
          × (now ≤ u * 1000 + 15000)
          × (b ≤ h)
          × (sample.error ≡ false)
      unfolding state
      bounds = ground arith

      Shows-of_parts : Shows s now ibd b h
      Shows-of_parts =
          let (c_set, u_set, c_recent, u_recent, ordered, clean) = bounds in
          let (blocks, _) = safe_natural-eq_some chain.blocks b hb in
          let (headers, fits) = safe_natural-eq_some chain.headers h hh in
          record {
            sample = sample;
            chain = chain;
            collected = c;
            updated = u;
            collected_at = hc;
            sampled = hs;
            updated_at = hu;
            no_error = clean;
            valued = hv;
            ibd_known = hi;
            blocks_known = blocks;
            headers_known = headers;
            collected_set = c_set;
            updated_set = u_set;
            collected_recent = c_recent;
            updated_recent = u_recent;
            ordered = ordered;
            fits = fits;
          }

  evidence : (ibd : Bool) × (blocks : ℕ) × (headers : ℕ) × Shows s now ibd blocks headers
  evidence =
      let (c, hc) = some_of_ne s.collected has_sample.0 in
      let (sample, hs) = some_of_ne s.getblockchaininfo has_sample.1 in
      let (u, hu) = some_of_ne sample.updated (has_value c sample hc hs).0 in
      let (chain, hv) = some_of_ne sample.value (has_value c sample hc hs).1 in
      let known = has_chain c sample hc hs u chain hu hv in
      let (ibd, hi) = some_of_ne chain.initialblockdownload known.0 in
      let (b, hb) = some_of_ne (safe_natural chain.blocks) known.1 in
      let (h, hh) = some_of_ne (safe_natural chain.headers) known.2 in
      (ibd, b, h, Shows-of_parts c sample hc hs u chain ibd b h hu hv hi hb hh)

-- Other than delayed is only what a collected, fresh, error-free sample of ordered safe heights
-- shows, and then exactly by its initial download flag and by whether headers are ahead of blocks.
pub state_iff :
    (s : Snapshot) (now : ℕ) (v : SyncState)
    → v ≢ delayed
    → (state (some s) now false ≡ v) ↔ (
        (ibd : Bool) × (blocks : ℕ) × (headers : ℕ) × Shows s now ibd blocks headers
        × (verdict ibd blocks headers ≡ v))
state_iff s now v h = (
  λ e.
      let (ibd, b, k, shows) = evidence s now (λ d. h (sym e ∙ d)) in
      (ibd, b, k, shows, sym (state-Shows s now ibd b k shows) ∙ e),
  λ (ibd, b, k, shows, e). state-Shows s now ibd b k shows ∙ e,
)

-- A failed transport, a missing snapshot and a snapshot older than fifteen seconds show as delayed.
pub state-delayed :
    (s : Option Snapshot) (now : ℕ) (failed : Bool)
    → (failed ≡ true)
      ⊎ ((t : Snapshot) → s ≡ some t → (c : ℕ) → t.collected ≡ some c → c * 1000 + 15000 < now)
    → state s now failed ≡ delayed
unfolding state
state-delayed none now failed h = refl
state-delayed (some t) now failed (inl f) = ground arith
state-delayed (some t) now failed (inr h) = elim (Option-cases t.collected) [
  | inl e ↦ ground arith
  | inr (c, e) ↦ ground (arith, h t refl c e)
]
