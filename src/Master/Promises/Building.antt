-- ===== src/Master/Promises/Building.antt =====
-- The promises of BuildSession, CreateChunkTask and AssignIdleWorkers.
use log_grid.Base.{Bool-cases, List, Option-cases, arith, inl, inr, leb, length, refl, ℕ}
use log_grid.Protocol.{filename_size}
use log_grid.Master.State.{MasterServer}
use log_grid.Master.Chunks.{create_chunk_task}
use log_grid.Master.Dispatch.{assign_idle_workers}
use log_grid.Master.Dispatch.Idle.{assign_idle_workers-LeavesIdle}
use log_grid.Master.Dispatch.Waking.{assign_idle_workers-Ready}
use log_grid.Master.Scan.{SearchConfig}
use log_grid.Master.Start.{Environment, build_session, create_session_file_path}
use log_grid.Master.Promises.{AssignPromise, BuildPromise, ChunkTaskPromise}

-- BuildSession keeps its promise.
pub build_session-Promise :
    (env : Environment) (id : ℕ) (config : SearchConfig)
    → BuildPromise env id config (build_session env id config)
unfolding build_session
build_session-Promise env id config =
    elim (Option-cases (create_session_file_path env config.output_dir id)) [
      | inl refused ↦ rw refused refused
      | inr (path, made) ↦ rw made (made, refl, refl, refl)
    ]

-- CreateChunkTask keeps its promise.
pub create_chunk_task-Promise :
    (path keyword : List ℕ) (id max_results : ℕ)
    → ChunkTaskPromise path id max_results (create_chunk_task path keyword id max_results)
unfolding create_chunk_task
create_chunk_task-Promise path keyword id max_results =
    elim (Bool-cases (leb filename_size (length path))) [
      | inl long ↦ rw long (ground arith)
      | inr fits ↦ rw fits (ground arith, refl, refl, refl)
    ]

-- AssignIdleWorkers keeps its promise.
pub assign_idle_workers-Promise : (s : MasterServer) → AssignPromise s (assign_idle_workers s)
assign_idle_workers-Promise s = (assign_idle_workers-LeavesIdle s, assign_idle_workers-Ready s)
