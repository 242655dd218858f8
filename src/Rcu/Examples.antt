-- ===== src/Rcu/Examples.antt =====
-- A grace period with one reader on one CPU: the reader is inside when the wait begins, the first
-- scan sees it, the period is flipped, and the scan after its end finds no reader.
use libside.Common.{false, if◌then◌else◌, ◌==◌, ◌≡◌, refl, true, false, arith}
use libside.Rcu.{GpState}
use libside.Rcu.Counting.{sum_to}
use libside.Rcu.Grace.{
  inside, fast, second, System, load_period, begin_section, end_section, start, load_end,
  ends_loaded, load_begin, begins_loaded, lock, Reach, here, next,
}
use libside.Rcu.Grace.Safety.{FewSections, grace_period}

record Run : Type 0 where
  last : System
  reach : Reach 1 4 last

abbrev run : Run
run = record {
  last = _;
  reach =
      next
        (next
          (next
            (next
              (next
                (next
                  (next
                    (next
                      (next
                        (next
                          (next
                            (next
                              (next
                                (next
                                  (next
                                    (next
                                      (next
                                        (next
                                          (next
                                            (next
                                              (next
                                                (next
                                                  (next
                                                    (next
                                                      (next here (load_period 0 (omega arith) refl))
                                                      (begin_section 0 0 (omega arith) (omega arith)
                                                        refl))
                                                    (start refl))
                                                  (load_end fast 0 refl (omega arith)))
                                                (load_end fast 1 refl (omega arith)))
                                              (load_end fast 2 refl (omega arith)))
                                            (load_end fast 3 refl (omega arith)))
                                          (ends_loaded fast refl))
                                        (load_begin fast 0 refl (omega arith)))
                                      (load_begin fast 1 refl (omega arith)))
                                    (load_begin fast 2 refl (omega arith)))
                                  (load_begin fast 3 refl (omega arith)))
                                (begins_loaded fast refl))
                              (lock refl))
                            (end_section 0 1 true (omega arith) (omega arith) refl))
                          (load_end second 0 refl (omega arith)))
                        (load_end second 1 refl (omega arith)))
                      (load_end second 2 refl (omega arith)))
                    (load_end second 3 refl (omega arith)))
                  (ends_loaded second refl))
                (load_begin second 0 refl (omega arith)))
              (load_begin second 1 refl (omega arith)))
            (load_begin second 2 refl (omega arith)))
          (load_begin second 3 refl (omega arith)))
        (begins_loaded second refl);
}

run-FewSections : FewSections 4 run.last
unfolding sum_to
run-FewSections p = ground arith

grace_period_example : ¬ (run.last.readers 0 ≡ inside 0 true)
grace_period_example = grace_period run.reach run-FewSections refl 0 0 (omega arith)

-- Two CPUs: a section that began on the first and ended on the second, and one that is still open.
abbrev counters : GpState
counters = record {
  nr_cpus = 2;
  count = λ cpu p.
      if cpu == 0
      then record { begin = 0; rseq_begin = 2; ended = 0; rseq_end = 0 }
      else record { begin = 0; rseq_begin = 0; ended = 1; rseq_end = 0 };
  futex = false;
  period = 0;
}
