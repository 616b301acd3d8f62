-- ===== src/Reassembly/Arrive.antt =====
-- The fragments of one message, and the list that the module keeps of them.
use c_mesh_api.Reassembly.Write.{IsPart, covered}
use c_mesh_api.Reassembly.Containers.{PacketKey}
use c_mesh_api.Reassembly.{Fragment, rx_size, InternalFragment, PacketKey, key_of}
use c_mesh_api.Prelude.{
  ℕ, Bytes, List, All, Bool, take, ◌++◌, ◌∷◌, ◌≤◌, [], arith, false, ◌≡◌, ◌≢◌, refl, suc, ◌+◌, ◌<◌,
  length, ◌==◌, ◌||◌, true, Bool-cases, inl, inr,
}

-- What the module keeps of a fragment.
abbrev pub kept : Fragment → InternalFragment
kept frag = record { bytes = take frag.size frag.bytes; size = frag.size; offset = frag.offset }

-- `frag` is a non-empty part of the message `m` of the packet `key`, and its flag says whether it
-- is the end of it.
abbrev pub IsFragmentOf : Bytes → PacketKey → Fragment → Type 0
IsFragmentOf m key frag =
    (key_of frag ≡ key)
    × (0 < frag.size)
    × (frag.size ≤ length frag.bytes)
    × IsPart m (kept frag)
    × (frag.last_fragment ≡ (frag.offset + frag.size == length m))

-- The list after the fragments have been put in front of `got`.
abbrev pub kept_all : List Fragment → List InternalFragment → List InternalFragment
kept_all [] got = got
kept_all (frag ∷ frags) got = kept_all frags (kept frag ∷ got)

-- Each fragment belongs to the message, and its offset is new.
abbrev pub Arrive : Bytes → PacketKey → List InternalFragment → List Fragment → Type 0
Arrive m key got [] = Unit
Arrive m key got (frag ∷ frags) =
    IsFragmentOf m key frag
    × All (λ g. g.offset ≢ frag.offset) got
    × Arrive m key (kept frag ∷ got) frags

-- Some fragment ends where the message ends.
abbrev pub ends : Bytes → List InternalFragment → Bool
ends m [] = false
ends m (g ∷ gs) = (g.offset + g.size == length m) || ends m gs

pub ends-covered :
    (m : Bytes) (i : ℕ) (gs : List InternalFragment)
    → All (IsPart m) gs
    → suc i ≡ length m
    → covered i gs ≡ true
    → ends m gs ≡ true
ends-covered m i [] p e c = absurd (cc)
ends-covered m i (g ∷ gs) p e c = elim (Bool-cases (covered i gs)) [
  | inl q ↦ let rest : ends m gs ≡ true = ends-covered m i gs p.1 e q in ground arith
  | inr q ↦ let h : g.offset + g.size ≤ length m = p.0.0 in ground arith
]

pub rx_size-kept_all :
    (frags : List Fragment) (got : List InternalFragment)
    → rx_size got ≤ rx_size (kept_all frags got)
unfolding rx_size
rx_size-kept_all [] got = omega arith
rx_size-kept_all (frag ∷ frags) got = omega (arith, rx_size-kept_all frags (kept frag ∷ got))

pub kept_all-append :
    (frags : List Fragment) (frag : Fragment) (got : List InternalFragment)
    → kept_all (frags ++ (frag ∷ [])) got ≡ kept frag ∷ kept_all frags got
kept_all-append [] frag got = refl
kept_all-append (f ∷ frags) frag got = kept_all-append frags frag (kept f ∷ got)

pub Arrive-append :
    (m : Bytes) (key : PacketKey) (got : List InternalFragment) (frags : List Fragment)
    (frag : Fragment)
    → Arrive m key got (frags ++ (frag ∷ []))
    → Arrive m key got frags × Arrive m key (kept_all frags got) (frag ∷ [])
Arrive-append m key got [] frag h = (tt, h)
Arrive-append m key got (f ∷ frags) frag (h, k, l) =
    let (a, b) = Arrive-append m key (kept f ∷ got) frags frag l in ((h, k, a), b)

pub kept_all-IsPart :
    (m : Bytes) (key : PacketKey) (got : List InternalFragment) (frags : List Fragment)
    → All (IsPart m) got
    → Arrive m key got frags
    → All (IsPart m) (kept_all frags got)
kept_all-IsPart m key got [] p h = p
kept_all-IsPart m key got (f ∷ frags) p (h, k, l) =
    kept_all-IsPart m key (kept f ∷ got) frags (h.3, p) l
