-- ===== src/Backend/Threads.antt =====
-- How the constructor of Backend_NUMA sizes and places its threads (backend_numa.cpp, lines
-- 111-162). The machine has at least two CPUs; what the environment asks for, and the node of each
-- CPU (libnuma), are arguments.
use xiaotu_moe.Base.{
  ℕ, zero, suc, ◌+◌, ◌-◌, ◌/◌, ◌%◌, ◌==◌, ltb, if◌then◌else◌, List, [], ◌∷◌, Option, none, some,
  range, length,
}

-- num_threads, from a valid LK_THREADS or half the CPUs.
abbrev pub num_threads : ℕ → Option ℕ → ℕ
num_threads num_cpus none = num_cpus / 2
num_threads num_cpus (some threads) = threads

-- max_threads_.
abbrev pub max_threads : (num_cpus numa_nodes : ℕ) → Option ℕ → ℕ
max_threads num_cpus numa_nodes env =
    let n = num_threads num_cpus env in
    let m = if ltb n numa_nodes then numa_nodes else n in
    if ltb (num_cpus - 2) m then num_cpus - 2 else m

-- The loop over the CPUs: the threads that node nid gets, `left` of them, numbered from tid on.
abbrev pub take_cpus : (node_of : ℕ → ℕ) (nid left tid : ℕ) → List ℕ → List ℕ
take_cpus node_of nid zero tid cids = []
take_cpus node_of nid (suc left) tid [] = []
take_cpus node_of nid (suc left) tid (cid ∷ cids) =
    let found = tid ∷ take_cpus node_of nid left (suc tid) cids in
    let passed = take_cpus node_of nid (suc left) tid cids in
    if node_of cid == nid then found else passed

-- node_threads_, from node nid on, for n nodes more.
abbrev pub place_nodes : (node_of : ℕ → ℕ) (base remain nid tid : ℕ) → List ℕ → ℕ → List (List ℕ)
place_nodes node_of base remain nid tid cids zero = []
place_nodes node_of base remain nid tid cids (suc n) =
    let here = take_cpus node_of nid (base + (if ltb nid remain then 1 else 0)) tid cids in
    here ∷ place_nodes node_of base remain (suc nid) (tid + length here) cids n

abbrev pub node_threads : (num_cpus numa_nodes : ℕ) → (node_of : ℕ → ℕ) → Option ℕ → List (List ℕ)
node_threads num_cpus numa_nodes node_of env =
    let m = max_threads num_cpus numa_nodes env in
    place_nodes node_of (m / numa_nodes) (m % numa_nodes) 0 0 (range 0 num_cpus) numa_nodes
