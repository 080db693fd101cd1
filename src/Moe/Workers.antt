-- ===== src/Moe/Workers.antt =====
-- MOE::forward with its jobs on the threads of Backend_NUMA.
use xiaotu_moe.Base.{sym, subst, ℕ, ◌/◌, ◌≤◌, ◌<◌, ◌≡◌, List, All, length, some}
use xiaotu_moe.Backend.Workers.{Crew}
use xiaotu_moe.Backend.Crews.{Mans}
use xiaotu_moe.Layers.Jobs.{Dispatch}
use xiaotu_moe.Layers.Finished.{Finished, dispatch}
use xiaotu_moe.Layers.Batches.{Batch, forward}
use xiaotu_moe.Moe.Kernels.{Ggml}
use xiaotu_moe.Moe.Forward.{Moe, Args}
use xiaotu_moe.Moe.Batch.{Setting, run_calls}
use xiaotu_moe.Moe.Expected.{Matrices, expected}
use xiaotu_moe.Moe.Built.{construct, Shape, forward-expected}

module _ (c : Crew) (nodes : List (List ℕ)) (manned : All (λ tids. 1 ≤ length tids) nodes)
    (mans : Mans c nodes) where
  -- The dispatch of the jobs of a call, where each job has been called and has returned.
  abbrev pub on_workers :
      (n : ℕ) → length nodes ≡ n → 1 ≤ n → ((job k nth : ℕ) → Finished c nodes k nth) → Dispatch n
  on_workers n e p jobs =
      subst Dispatch e (dispatch c nodes (subst (λ x. 1 ≤ x) (sym e) p) manned mans jobs)

  -- On threads that node_threads_ has for every node and that threads_info_ agrees with: however
  -- the steps of the caller and of the workers interleave in the constructor's jobs and in those of
  -- each call, as long as every job returns, MOE::forward ends and leaves the expected output for
  -- every token, for a batch with a rank and expert ids in range, when strides and type blocks fill
  -- the rows and group_max_len is at least 1, whatever the buffers held.
  pub forward-on_workers :
      (g : Ggml) (m : Moe g) (q : Args g) (w : Matrices g) (sh : Shape g m q)
      (e : length nodes ≡ m.numa_nodes) (built : (job k nth : ℕ) → Finished c nodes k nth)
      (served : (pos job k nth : ℕ) → Finished c nodes k nth)
      (held : ℕ → Setting g (construct g m w (on_workers m.numa_nodes e sh.some_node built)))
      (fuel lo hi qlen : ℕ)
      → 1 ≤ hi
      → q.qlen ≤ fuel
      → (bs : List Batch) × (forward fuel lo hi qlen q.qlen ≡ some bs)
        × ((out : ℕ → ℕ → g.Block) (t b : ℕ)
            → t < q.qlen
            → b < m.hidden_size / g.blck_size m.hidden_type
            → run_calls g
                (construct g m w (on_workers m.numa_nodes e sh.some_node built))
                q
                (λ pos. record (held pos) {
                  dispatch = on_workers m.numa_nodes e sh.some_node (served pos);
                })
                bs
                out
                t
                b
              ≡ expected g m q w t b)
  forward-on_workers g m q w sh e built served held fuel lo hi qlen p f =
      forward-expected g m q w sh (on_workers m.numa_nodes e sh.some_node built)
        (on_workers m.numa_nodes e sh.some_node built) fuel lo hi qlen p f
        (λ pos. record (held pos) {
          dispatch = on_workers m.numa_nodes e sh.some_node (served pos);
        })
