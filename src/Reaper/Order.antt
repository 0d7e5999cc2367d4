-- ===== src/Reaper/Order.antt =====
-- reaper/service.py over InMemoryStore: the order in which the stuck jobs are listed. The query of
-- common/db.py asks for none.
use job_processing_workflow.Prelude.{
  ℕ, Bool, true, false, ◌≡◌, refl, sym, ap, subst, ◌∙◌, some, List, arith, lookup, nat_key,
}
use mathlib.Core.List.{Permᴰ}
use mathlib.Core.List.Permᴰ
use job_processing_workflow.Models.{Job, Time, StuckJob}
use job_processing_workflow.MemoryStore.{InMemoryStore, is_stuck, find_stuck, get_job}
use job_processing_workflow.MemoryStore.AsStore.{in_memory}
use job_processing_workflow.MemoryStore.Invariant.{IsValid}
use job_processing_workflow.Reaper.{no_stats, reap_all, reap_once}
use job_processing_workflow.Reaper.Memory.{Swept, listed, reap_all-Swept, listed-stuck_of}
use job_processing_workflow.Reaper.Stats.{
  bit, tally, Distinct, runs_at, reap_all_stats, stuck_of-Distinct,
}

listed-perm : {l m : List StuckJob} (k : ℕ) → Permᴰ l m → listed k l ≡ listed k m
listed-perm k Permᴰ.nil = refl
listed-perm k (Permᴰ.cons e p) = ground (arith, e, listed-perm k p)
listed-perm k (Permᴰ.swap e f) = ground (arith, e, f)
listed-perm k (Permᴰ.trans p q) = listed-perm k p ∙ listed-perm k q

abbrev weight : (ℕ → Bool) → StuckJob → ℕ
weight p stuck = bit (p stuck.job_id)

tally-perm : {l m : List StuckJob} (p : ℕ → Bool) → Permᴰ l m → tally p l ≡ tally p m
tally-perm p Permᴰ.nil = refl
tally-perm p (Permᴰ.cons e q) = omega (arith, ap (weight p) e, tally-perm p q)
tally-perm p (Permᴰ.swap e f) = omega (arith, ap (weight p) e, ap (weight p) f)
tally-perm p (Permᴰ.trans q r) = tally-perm p q ∙ tally-perm p r

abbrev id_of : StuckJob → ℕ
id_of stuck = stuck.job_id

Distinct-perm : {l m : List StuckJob} → Permᴰ l m → Distinct l → Distinct m
Distinct-perm Permᴰ.nil h = tt
Distinct-perm (Permᴰ.cons {a} {b} e p) h =
    (ground (arith, ap id_of e, h.0, listed-perm a.job_id p), Distinct-perm p h.1)
Distinct-perm (Permᴰ.swap {a} {b} {a'} {b'} {l} e f) h =
    (ground (arith, ap id_of e, ap id_of f, h.0, h.1.0), (ground (arith, ap id_of e, h.0), h.1.1))
Distinct-perm (Permᴰ.trans p q) h = Distinct-perm q (Distinct-perm p h)

-- A sweep over a well-formed store that goes through the stuck jobs in whatever order, for instance
-- in that in which a database gives them: it returns the numbers that a sweep in the order of
-- find_stuck returns, and it recovers the same jobs, by the same rule, and leaves every other job.
pub reap_all-Permutes :
    (clock : ℕ → Time) (s : InMemoryStore) (l : List StuckJob)
    → IsValid s
    → Permᴰ l (find_stuck (clock 0) s)
    → let r = reap_all in_memory clock 1 l (s, no_stats) in
      (r.1 ≡ (reap_once in_memory clock s).1)
      × ((k : ℕ) (job : Job)
          → get_job k s ≡ some job
          → Swept (is_stuck (clock 0) s.type_config job) s.type_config job (get_job k r.0))
unfolding reap_once find_stuck get_job
reap_all-Permutes clock s l v p =
    let rows = find_stuck (clock 0) s in
    let distinct =
      stuck_of-Distinct (clock 0) s.type_config s.next_job s.jobs v.job_ids v.distinct_jobs in
    let same = λ (b : Bool). tally-perm (runs_at b s) p in
    (
      reap_all_stats clock 1 l s no_stats (Distinct-perm (Permᴰ.symm p) distinct)
          ∙ (ground (arith, same false, same true)
              ∙ sym (reap_all_stats clock 1 rows s no_stats distinct)),
      λ k job found.
          let (_, sw) = reap_all-Swept clock k 1 l s no_stats job found in
          subst
            (λ b.
              Swept b s.type_config job
                (lookup k (reap_all in_memory clock 1 l (s, no_stats)).0.jobs))
            (ground (
              arith,
              listed-perm k p,
              listed-stuck_of (clock 0) s.type_config k s.next_job s.jobs job v.job_ids
                  v.distinct_jobs found,
            ))
            sw,
    )
