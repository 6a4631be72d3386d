-- ===== src/Pci/Regions.antt =====
-- The regions that day_08/ex22.c is granted, maps and releases.
use ldd3_examples.Common.{
  ℕ, suc, Bool, true, ◌≡◌, List, [], ◌∷◌, length, ◌==◌, not, ◌&&◌, if◌then◌else◌, Run, done, fault,
  ◌>>=◌,
}
use ldd3_examples.Pci.{
  Call, pci_request_region, ioremap_nocache, pci_release_region, Bar, is_mapped, Window, remove,
}

-- The BARs that calls are granted, and those that they release, and how many mappings they make.
abbrev pub granted : List Call → List ℕ
granted [] = []
granted (pci_request_region i true ∷ cs) = i ∷ granted cs
granted (_ ∷ cs) = granted cs

abbrev pub released : List Call → List ℕ
released [] = []
released (pci_release_region i ∷ cs) = i ∷ released cs
released (_ ∷ cs) = released cs

abbrev pub mappings : List Call → ℕ
mappings [] = 0
mappings (ioremap_nocache base size true ∷ cs) = suc (mappings cs)
mappings (_ ∷ cs) = mappings cs

-- The numbers, from `i` on, of the BARs that pass a test.
abbrev pub chosen : (Bar → Bool) → ℕ → List Bar → List ℕ
chosen test i [] = []
chosen test i (b ∷ bs) = if test b then i ∷ chosen test (suc i) bs else chosen test (suc i) bs

abbrev pub has_start : Bar → Bool
has_start b = not (b.start == 0)

abbrev pub is_granted : Bar → Bool
is_granted b = b.granted

-- The windows have the ranges of the BARs.
abbrev pub Follows : List Window → List Bar → Type 0
Follows [] [] = Unit {0}
Follows (w ∷ ws) (b ∷ bs) = (w.iobase ≡ b.start) × Follows ws bs
Follows _ _ = ⊥

abbrev mapped_too : Bar → Bool
mapped_too b = is_granted b && is_mapped b

abbrev Probed : ℕ → List Bar → Run Call (List Window) → Type 0
Probed i bars (done t ws) =
    (granted t ≡ chosen is_granted i bars)
    × (released t ≡ [])
    × (mappings t ≡ length (chosen mapped_too i bars))
    × Follows ws bars
Probed i bars fault = ⊥

-- What is released for these windows, and nothing else is done but to release.
abbrev Released : ℕ → List Bar → Run Call (Unit {0}) → Type 0
Released i bars (done t r) =
    (released t ≡ chosen has_start i bars) × (granted t ≡ []) × (mappings t ≡ 0)
Released i bars fault = ⊥

-- What a removal releases; it undoes no mapping, as no call of the driver does.
abbrev pub Removed : List Bar → Run Call (Unit {0}) → Type 0
Removed bars (done t r) = (released t ≡ chosen has_start 0 bars) × (mappings t ≡ 0)
Removed bars fault = ⊥

-- A probe and the removal that follows it.
abbrev pub Balance : List Bar → Run Call (List Window × ℕ) → Type 0
Balance bars (done t (ws, r)) =
    (r ≡ 0)
    × (granted t ≡ chosen is_granted 0 bars)
    × (released t ≡ [])
    × (mappings t ≡ length (chosen mapped_too 0 bars))
    × Removed bars (remove ws)
Balance bars fault = ⊥
