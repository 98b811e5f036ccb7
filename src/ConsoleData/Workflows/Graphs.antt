-- ===== src/ConsoleData/Workflows/Graphs.antt =====
-- Inspections and their graphs (src/lib/console-data.ts, `getInspection`).
use distributed_job_platform.Base.{
  ◌≤◌, ◌≡◌, refl, subst, String, Bool, true, false, ◌&&◌, List, [], ◌∷◌, map, none, some, keep,
  find, any, find_passes, find-tally, find-none, tally, lookup, truthy, str_eq, str_eq_iff,
  str_eq_refl, arith, Bool-cases, Option-cases, inl, inr, ◌⊎◌,
}
use distributed_job_platform.Models.Jobs.{Job, JobInspection, DependencyNode}
use distributed_job_platform.Models.Console.{ConsoleData, Clock}
use distributed_job_platform.LiveRefresh.{or_empty}
use distributed_job_platform.Safe.{
  create_inspection_fallback, shares_workflow, dependency_node, nodes_or,
}
use distributed_job_platform.ConsoleData.{has_id}
use distributed_job_platform.ConsoleData.Workflows.{get_inspection}

abbrev pub is_node_of : String → DependencyNode → Bool
is_node_of i node = str_eq node.job_id i

tally-nodes :
    (job : Job) (i : String) (jobs : List Job)
    → tally (is_node_of i) (map dependency_node (keep (shares_workflow job) jobs))
      ≡ tally (λ x. has_id i x && shares_workflow job x) jobs
tally-nodes job i [] = refl
tally-nodes job i (x ∷ xs) = elim (Bool-cases (shares_workflow job x)) [
  | inl e ↦ rw e (ground (arith, tally-nodes job i xs))
  | inr e ↦ rw e (ground (arith, tally-nodes job i xs))
]

same_text : (a b : String) → truthy b ≡ false → truthy a && str_eq a b ≡ false
same_text a b h = ground (arith, str_eq_iff a b)

unshared :
    (job : Job) (jobs : List Job)
    → truthy (or_empty job.workflow_id) ≡ false
    → keep (shares_workflow job) jobs ≡ []
unshared job [] h = refl
unshared job (x ∷ xs) h =
    rw (same_text (or_empty x.workflow_id) (or_empty job.workflow_id) h) (unshared job xs h)

-- The job's own node, or the lone one.
own_node :
    (job : Job) (nodes : List DependencyNode)
    → (1 ≤ tally (is_node_of job.id) nodes) ⊎ (nodes ≡ [])
    → 1 ≤ tally (is_node_of job.id) (nodes_or job nodes)
own_node job [] h = ground (arith, str_eq_refl job.id)
own_node job (node ∷ nodes) (inl h) = h
own_node job (node ∷ nodes) (inr h) = ground arith

fallback_graph :
    (job : Job) (jobs : List Job) (p : Job → Bool)
    → find p jobs ≡ some job
    → 1
      ≤ tally
          (is_node_of job.id)
          (nodes_or job (map dependency_node (keep (shares_workflow job) jobs)))
fallback_graph job jobs p h = elim (Bool-cases (truthy (or_empty job.workflow_id))) [
  | inr e ↦ own_node job _ (inr (rw (unshared job jobs e)))
  | inl e ↦
      let mine : (has_id job.id job && shares_workflow job job) ≡ true =
        rw (str_eq_refl job.id) (rw e (str_eq_refl (or_empty job.workflow_id))) in
      own_node job _ (
        inl (
          rw (tally-nodes job job.id jobs)
            (find-tally p (λ x. has_id job.id x && shares_workflow job x) jobs job h mine)))
]

-- For a job of the console whose inspection has not been stored, there is an inspection: of that job,
-- and with a graph that starts at it and has a node for it.
pub get_inspection_lem :
    (c : Clock) (d : ConsoleData) (i : String)
    → lookup i d.inspections ≡ none
    → any (has_id i) d.jobs ≡ true
    → (inspection : JobInspection) × (get_inspection c d i ≡ some inspection)
      × (inspection.job.id ≡ i)
      × (inspection.graph.root_job_id ≡ i)
      × (1 ≤ tally (is_node_of i) inspection.graph.nodes)
unfolding get_inspection create_inspection_fallback
get_inspection_lem c d i h k = elim (Option-cases (find (has_id i) d.jobs)) [
  | inl e ↦ let no_job = find-none (has_id i) d.jobs e in cc
  | inr (job, e) ↦
      let same : job.id ≡ i = (str_eq_iff job.id i).0 (find_passes (has_id i) d.jobs job e) in
      (
        create_inspection_fallback c job d.jobs,
        rw h (rw e),
        same,
        same,
        subst
            (λ j.
              1
              ≤ tally (is_node_of j)
                  (nodes_or job (map dependency_node (keep (shares_workflow job) d.jobs))))
            same (fallback_graph job d.jobs (has_id i) e),
      )
]
