-- ===== src/Vfs/Replay/Tests.antt =====
-- The replay of an outbox (crates/openfs-remote/src/vfs.rs) at concrete inputs, to a memory backend.
use open_fs.Prelude.{
  ℕ, ◌<◌, ◌≡◌, refl, arith, false, none, some, List, [], ◌∷◌, ◌++◌, map, list_eq, list_beq, retain,
  nat_eq,
}
use mathlib.Core.Option
use open_fs.Prelude.Map
use open_fs.Prelude.Sort.{sort_by}
use open_fs.Prelude.Text.{text, trim, trim_start, trim_end}
use open_fs.Error.{ok}
use open_fs.Memory
use open_fs.Memory.{MemoryBackend}
use open_fs.Wal.{WriteAheadLog, OutboxEntry, WalOpType, processing, default_config, in_memory}
use open_fs.Wal.Outbox
use open_fs.Wal.Outbox.{
  update_row, find_row, find_pending, is_ready, backoff_over, is_stuck, fetch_ready_outbox,
  mark_processing, complete_outbox, fail_outbox, recover_stuck, open_wal,
}
use open_fs.Wal.Run
use open_fs.Wal.Run.{run, call, run-IsValid}
use open_fs.Cached.{Backend}
use open_fs.Vfs.Replay.{Replay, apply_outbox_entry, replay_outbox_entries, recover_mount}
use open_fs.Vfs.Replay.Load.{load}
use open_fs.Vfs.Replay.Total.{Replayed, replay_outbox_entries_total, recover_mount-processing}

abbrev memory : Backend MemoryBackend
memory = record {
  read = Memory.read;
  read_with_cas_token = Memory.read_with_cas_token;
  write = Memory.write 9;
  compare_and_swap = Memory.compare_and_swap 9;
  append = Memory.append 9;
  delete = Memory.delete;
  exists = λ p b. ok (Memory.exists p b);
  rename = Memory.rename;
}

program : Unit {0}
unfolding call run Outbox.enqueue_outbox update_row find_row find_pending is_ready backoff_over
    is_stuck fetch_ready_outbox mark_processing complete_outbox fail_outbox recover_stuck open_wal
    sort_by retain replay_outbox_entries recover_mount apply_outbox_entry Memory.write Memory.delete
    Memory.append Memory.normalize_path trim trim_start trim_end Map.get Map.insert Map.remove
    list_beq load
program = tt

-- a write, a delete of a file that is not there, and a write without content
abbrev calls : List Run.Call
calls =
    Run.enqueue_outbox 10 WalOpType.write (text "a") (some (1 ∷ [])) (text "/m")
    ∷ Run.enqueue_outbox 11 WalOpType.delete (text "b") none (text "/m")
    ∷ Run.enqueue_outbox 12 WalOpType.write (text "c") none (text "/m")
    ∷ []

abbrev w : WriteAheadLog
w = run calls (in_memory default_config)

abbrev clock : MemoryBackend → ℕ
clock b = 100

light : load w.config.max_retries w.outbox < 20
unfolding program
light = omega arith

replay_outbox_entries_total_example :
    (r' : Replay MemoryBackend) × (replay_outbox_entries memory clock
        (λ e. [])
        20
        (w, Memory.new, 0)
      ≡ some r')
    × Replayed memory clock (λ e. []) (w, Memory.new, 0) r'
replay_outbox_entries_total_example =
    replay_outbox_entries_total memory clock (λ e. []) 20 (w, Memory.new, 0)
      (run-IsValid default_config calls) light

-- two entries are applied, and the third waits for its next attempt
two_applied :
    Option.map {B = ℕ × List ℕ}
      (λ r. (r.2, map (λ (e : OutboxEntry). e.id) r.0.outbox))
      (replay_outbox_entries memory clock (λ e. []) 20 (w, Memory.new, 0))
    ≡ some (2, 3 ∷ [])
unfolding program
two_applied = refl

-- the write was being sent when the program ended
abbrev crashed : WriteAheadLog
crashed = run (calls ++ Run.mark_processing 90 1 ∷ []) (in_memory default_config)

abbrev sending : OutboxEntry
sending = record {
  id = 1;
  op_type = WalOpType.write;
  path = text "a";
  content = some (1 ∷ []);
  mount_path = text "/m";
  status = processing;
  attempts = 0;
  created_at = 10;
  last_attempt = some 90;
  error = none;
}

sending_there : find_row 1 crashed.outbox ≡ some sending
unfolding program
sending_there = refl

young : is_stuck crashed.config.stuck_timeout_secs 100 sending ≡ false
unfolding program
young = refl

light_again : load (open_wal 100 crashed).config.max_retries (open_wal 100 crashed).outbox < 20
unfolding program
light_again = omega arith

recover_mount-processing_example :
    (r : Replay MemoryBackend) × (recover_mount memory clock (λ e. []) 20 crashed Memory.new
      ≡ some r)
    × (find_row 1 r.0.outbox ≡ some sending)
recover_mount-processing_example =
    recover_mount-processing memory clock (λ e. []) 20 1 sending crashed Memory.new
      (run-IsValid default_config (calls ++ Run.mark_processing 90 1 ∷ [])) sending_there refl young
      light_again
