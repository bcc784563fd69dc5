-- ===== src/Chunk/State/Tests.antt =====
-- src/chunk/state.rs: the registry on concrete calls.
use librtmp.Chunk.State.{ChunkRegistry, new, get_or_create_index, can_get_or_create, abort_stream}
use librtmp.Chunk.State.Inv.{RegInv}
use librtmp.Chunk.State.Lookup.{OpenResult, get_or_create_index_cases}
use librtmp.Chunk.State.Ops.{Dropped, new-RegInv, get_or_create_index-RegInv, abort_stream-Dropped}

-- A registry with the stream 5.
abbrev opened : ChunkRegistry
opened = (get_or_create_index 5 new).0

opened-RegInv : RegInv opened
opened-RegInv = get_or_create_index-RegInv new 5 new-RegInv

get_or_create_index_cases_example :
    OpenResult opened 6 (can_get_or_create opened 6) (get_or_create_index 6 opened)
get_or_create_index_cases_example = get_or_create_index_cases opened 6 opened-RegInv

abort_stream-Dropped_example : Dropped 5 opened (abort_stream 5 opened)
abort_stream-Dropped_example = abort_stream-Dropped 5 opened opened-RegInv
