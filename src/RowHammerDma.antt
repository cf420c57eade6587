-- ===== src/RowHammerDma.antt =====
-- rowhammer_tester/gateware/rowhammer.py: RowHammerDMA, which reads from two addresses in turn.
-- One step is one clock cycle.
pub mod Alternates
use rowhammer_tester.Prelude.{
  ℕ, zero, suc, ◌+◌, ◌%◌, ◌^◌, Bool, true, false, ◌&&◌, List, [], ◌∷◌, ◌==◌, if◌then◌else◌,
}

-- What the module reads: its CSRs and the DMA's `sink.ready`.
pub record DmaInput : Type 0 where
  pub enabled : Bool
  pub address1 : ℕ
  pub address2 : ℕ
  pub count_we : Bool
  pub sink_ready : Bool

unfoldable pub accepted : DmaInput → Bool
accepted i = i.enabled && i.sink_ready

unfoldable pub dma_step : DmaInput → ℕ → ℕ
unfolding accepted
dma_step i counter =
    if i.enabled
    then (if accepted i then (counter + 1) % 2 ^ 32 else counter)
    else if i.count_we
    then 0
    else counter

-- The `Case` on `counter[0]`.
unfoldable pub dma_address : DmaInput → ℕ → ℕ
dma_address i counter = if counter % 2 == 0 then i.address1 else i.address2

-- The addresses that the DMA accepts over a list of cycles.
unfoldable pub hammered : List DmaInput → ℕ → List ℕ
unfolding dma_step dma_address accepted
hammered [] counter = []
hammered (i ∷ is) counter =
    let rest = hammered is (dma_step i counter) in
    if accepted i then dma_address i counter ∷ rest else rest

unfoldable pub dma_run : List DmaInput → ℕ → ℕ
unfolding dma_step
dma_run [] counter = counter
dma_run (i ∷ is) counter = dma_run is (dma_step i counter)
