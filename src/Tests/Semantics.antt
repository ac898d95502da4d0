-- ===== src/Tests/Semantics.antt =====
-- The analysis of register instructions on a small input.
use polymalys.Common.{true, false, none, some, List, [], ◌∷◌, ◌≡◌, refl, sym, ◌∙◌, arith}
use polymalys.Common.Int.{pos, ◌+ℤ◌}
use polymalys.Ppl.Syntactic.{syntactic}
use polymalys.WPoly.{new}
use polymalys.Common.StdMap.{find}
use polymalys.PplDomain.TransferFacts.{IsResult}
use polymalys.PplDomain.{top, has_filter}
use polymalys.PplDomain.LoopExit.{top-IsDomain, top-Models, top_no_var}
use polymalys.PplDomain.Transfer.{add}
use polymalys.PplDomain.SemInst.{Counted, register, to_int32}
use polymalys.PplDomain.Delta.{Solver}
use polymalys.PplDomain.Load.{Memory}
use polymalys.PplDomain.OnSemInst.{SemInst, seti, set_to, binary, on_sem_insts}
use polymalys.PplDomain.SemFacts.{Registers, write}
use polymalys.PplDomain.SemRun.{
  Known, IsAt, Steps, all_reads_known, all_known_after, on_sem_insts-IsAt,
}

-- r1 := 4; r2 := 3; r3 := r1 + r2; r1 := r3
abbrev program : List SemInst
program =
    seti (pos 1) 4
    ∷ seti (pos 2) 3
    ∷ binary add (pos 3) (pos 1) (pos 2)
    ∷ set_to (pos 1) (pos 3)
    ∷ []

abbrev nothing_known : Known
nothing_known k = false

abbrev all_zero : Registers
all_zero k = pos 0

abbrev no_memory : Memory
no_memory = record { initial = λ a. none; writable = λ a. true }

abbrev no_rows : Solver syntactic
no_rows = record { minimized = λ p. []; same_poly = λ p q. false; get_si = λ n. n }

abbrev at_start : Counted syntactic
at_start = (0, top syntactic)

at_start-IsAt : IsAt syntactic nothing_known all_zero at_start
unfolding top has_filter new find
at_start-IsAt = record {
  counted = record {
    valid = top-IsDomain syntactic;
    tracked = λ g c e. absurd (ground (arith, e));
    bound = λ i v e. absurd (ground (arith, sym (top_no_var syntactic i) ∙ e));
  };
  describes = (
    λ g. pos 0,
    top-Models syntactic (λ g. pos 0),
    λ r v e. absurd (ground (arith, sym (top_no_var syntactic (register r)) ∙ e)),
  );
  unfiltered = refl;
  knows = λ k e. absurd (ground (arith, e));
}

abbrev after1 : Registers
after1 = write syntactic all_zero (pos 1) (to_int32 4)

abbrev after2 : Registers
after2 = write syntactic after1 (pos 2) (to_int32 3)

abbrev after3 : Registers
after3 = write syntactic after2 (pos 3) (pos 7)

abbrev after4 : Registers
after4 = write syntactic after3 (pos 1) (after3 (pos 3))

program-writes : all_known_after program nothing_known (pos 3) ≡ true
unfolding all_known_after
program-writes = refl

program-Steps : Steps syntactic program all_zero after4
unfolding to_int32 ◌+ℤ◌ IsResult
program-Steps = (after1, refl, (after2, refl, (after3, (pos 7, refl, refl), (after4, refl, refl))))

program_known : all_reads_known program nothing_known ≡ true
unfolding all_reads_known
program_known = refl

on_sem_insts-IsAt_example :
    (st : Counted syntactic) × (on_sem_insts syntactic no_rows no_memory program at_start ≡ some st)
    × IsAt syntactic (all_known_after program nothing_known) after4 st
on_sem_insts-IsAt_example =
    on_sem_insts-IsAt syntactic no_rows no_memory program nothing_known all_zero after4 at_start
      at_start-IsAt program_known program-Steps
