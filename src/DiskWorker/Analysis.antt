-- ===== src/DiskWorker/Analysis.antt =====
-- `BootAnalysis` of src/disk/web/boot-analysis.js: the units of 64 KiB that a boot reads, each once, in
-- the order of its first read.
use my.Base.{
  ℕ, zero, suc, ◌+◌, ◌-◌, ◌/◌, Bool, true, false, not, ◌||◌, Option, none, some, List, [], ◌∷◌,
  ◌++◌, length, ltb, ◌==◌, if◌then◌else◌,
}
use my.Base.Num.{Num, safe_nat}
use my.Base.Failure.{Result, ok, err, analysis_incomplete}

abbrev pub max_analysis_units : ℕ
max_analysis_units = 200000

abbrev pub unit_bytes : ℕ
unit_bytes = 65536

pub record Analysis : Type 0 where
  pub size : ℕ
  pub units : List ℕ
  pub recording : Bool
  pub overflow : Bool

unfoldable pub contains : ℕ → List ℕ → Bool
contains u [] = false
contains u (v ∷ vs) = if v == u then true else contains u vs

-- The loop of `observe` over `count` units from `unit`, and what it returns.
unfoldable pub observe_units : ℕ → ℕ → Analysis → Analysis × Bool
observe_units zero unit a = (a, false)
observe_units (suc count) unit a =
    let known = observe_units count (unit + 1) a in
    let added = observe_units count (unit + 1) (record a { units = a.units ++ unit ∷ [] }) in
    if contains unit a.units
    then known
    else if length a.units == max_analysis_units
    then (record a { recording = false; overflow = true }, true)
    else added

unfoldable pub observe_range : Option ℕ → Option ℕ → Analysis → Analysis × Bool
observe_range none length a = (a, false)
observe_range (some offset) none a = (a, false)
observe_range (some offset) (some length) a =
    let first = offset / unit_bytes in
    let last = (offset + length - 1) / unit_bytes in
    if not a.recording || length == 0 || ltb a.size (offset + length)
    then (a, false)
    else observe_units (last + 1 - first) first a

-- observe(offset,length)
abbrev pub observe : Num → Num → Analysis → Analysis × Bool
observe offset length a = observe_range (safe_nat offset) (safe_nat length) a

-- finish(), up to the ranges that it selects from the units
unfoldable pub finish : Analysis → Analysis × Result (List ℕ)
finish a =
    (record a { recording = false }, if a.overflow then err analysis_incomplete else ok a.units)

unfoldable pub create : ℕ → Analysis
create size = record { size = size; units = []; recording = true; overflow = false }

-- The state after some reads, each with its offset and its length.
unfoldable pub run : Analysis → List (Num × Num) → Analysis
run a [] = a
run a ((offset, length) ∷ rs) = run (observe offset length a).0 rs
