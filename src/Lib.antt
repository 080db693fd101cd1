-- ===== src/Lib.antt =====
-- xiaotu-moe: a CPU engine for the expert layers of a mixture-of-experts model, and the schedulers
-- that run its jobs.
--
-- The parts and their files, paths being from the repository's root:
--   WorkPool   xiaotu-moe/csrc/moe/numa_pool.hpp: NumaWorkPool. State.Pool is its shared members,
--              Worker.Work the steps of worker_loop, one shared access each, Caller.Call those of
--              parallel_for, parallel_for_sharded and stop; Caller.Step interleaves one caller
--              (call_mtx_ admits one) with any number of workers. A function that is dispatched is
--              a number, and `log` records the calls. Tickets and generations wrap at 2^64; a
--              reachable history is kept short of the wrap (Fits).
--   TaskQueue  xiaotu-moe/csrc/scheduler/task_queue.cpp: one worker thread and its clients; a
--              locked block is one step.
--   MoeV2      xiaotu-moe/csrc/moe/moe_v2.hpp: Routing groups the assignments by expert
--              (lines 455-470, 621-637; Regroup is on lists that the calls reuse), Jobs cuts the
--              lists into jobs (499-514), Forward is forward_many, Spans the arithmetic of row
--              ranges and Sliced forward_many_nsliced, whose jobs read the shard of their node or
--              the replica of their worker's socket; SlicedJobs.RowSlices is what it relies on of
--              the slices of the weight traits, which Packed4.Interface shows of the scalar path.
--              Shards is the copying of rows into NUMA regions (976-1034), Construct the constructor
--              (297-411) with sock_fill and the choice of a replica. Floating-point operations and
--              the weight traits are parameters. A parallel loop runs its jobs in an order that a
--              Schedule gives, each job once and whole: an assumption on the pool, which WorkPool
--              examines for flat and for sharded calls.
--   Backend    xiaotu-moe/csrc/scheduler/backend.cpp and backend_numa.cpp: the split of tasks over
--              threads, over nodes (Nodes, Homes), and the counters that workers fetch from; Workers
--              is a job of do_k_work_stealing_job, the caller's steps and those of process_tasks
--              interleaved; Threads is the constructor's placement of threads on CPUs.
--   Layers     what MOE, MLP and Linear (xiaotu-moe/csrc/moe/moe.cpp, mlp.cpp, linear.cpp) share:
--              Batches the loops of forward over a batch, Blocks the blocks of rows of the nodes
--              and the place that a task number stands for, Jobs a job on Backend_NUMA. A Dispatch
--              gives the order of a job's tasks and the node that runs each: every task once, on
--              the node of its block. Finished makes one from finished runs of Backend/Workers.
--   Moe        MOE: Weights the constructor's copies, Reorder the rows by expert, Forward
--              forward_many_m job by job, One forward_one, Batch the calls of forward, Expected
--              what they are to compute. The conversions and the dot product of ggml and llamafile
--              are parameters (Kernels.Ggml) with the laws that the code relies on: they read the
--              elements of a block, or the blocks of a row, and no others. A buffer is a function
--              of row and column, and llamafile_sgemm succeeds (the source ignores its result).
--              Held.Layout and Built.Shape are what the configuration has to satisfy, which the
--              source does not check.
--   Linear     xiaotu-moe/csrc/moe/linear.cpp: the constructor's copies, forward_many and forward,
--              built with USE_NUMA, on the same parameters as Moe.
--   Mlp        xiaotu-moe/csrc/moe/mlp.cpp: the same of MLP, whose down projection is a product as
--              in Linear (Linear/Products) and whose forward is the same recursion (Linear/Groups).
--   Packed4    xiaotu-moe/csrc/moe/moe_v2_packed4.hpp: matmul_packed4_group on the path without
--              vector instructions, the products and row slices of Packed4WeightTraitsBase, with
--              forward_many_nsliced on them (Interface), and the 16-entry tables.
--   Fp8        xiaotu-moe/csrc/moe/moe_v2_fp8.hpp: the same of FP8WeightTraits; E4m3 decodes a byte
--              (xiaotu-moe/csrc/kernels/fp8_dequant.hpp).
--   Bf16       xiaotu-moe/csrc/kernels/bf16_gemm.hpp: the conversions, on bit patterns, and
--              matmul_bf16 on its three paths (Matmul, Sums, Product); Traits is BF16WeightTraits and Engine
--              the forward_many of MoeV2 on it.
--   SharedBuffer  xiaotu-moe/csrc/scheduler/shared_mem_buffer.cpp: alloc, dealloc and arrange;
--              an allocation succeeds.
--   Base       lists, loops, machine words, families indexed by thread, row-major indices.
--
-- forward_many and forward_many_nsliced call the pool's parallel loops; the model joins them at
-- Schedule, and MOE's jobs and Backend_NUMA at Dispatch. Fuel occurs in MoeV2.Jobs.chunks, where
-- the length of a list bounds the rounds, and in Layers.Batches and Linear.Batch, where the tokens
-- of the batch do.
--
-- Not modelled: memory orders weaker than sequential consistency; the deadline and the diagnostics
-- of the pool; NUMA discovery, pinning and allocation; the vector paths of the packed4 and fp8
-- kernels; amx_gemm.cpp, which is a copy of ggml's kernels; the branch of MOE with fp32 buffers and
-- its AMX and AVX2 code; the Python binding, package and scripts. Signed products of dimensions are
-- taken to fit an int.
pub mod Backend
pub mod Base
pub mod Bf16
pub mod Fp8
pub mod Layers
pub mod Linear
pub mod Mlp
pub mod Moe
pub mod MoeV2
pub mod Packed4
pub mod SharedBuffer
pub mod TaskQueue
pub mod WorkPool
