-- ===== src/WorkQueue/Names.antt =====
-- The texts under which states and events are stored (crates/openfs-local/src/work_queue.rs).
use open_fs.Prelude.{◌≡◌, refl, list_beq}
use open_fs.WorkQueue.{
  QueueItemStatus, pending, processing, dead_letter, status_as_str, status_from_str, QueueEventType,
  changed, deleted, event_as_str, event_from_str,
}

status_from_str-as_str : (s : QueueItemStatus) → status_from_str (status_as_str s) ≡ s
unfolding status_from_str status_as_str list_beq
status_from_str-as_str pending = refl
status_from_str-as_str processing = refl
status_from_str-as_str dead_letter = refl

event_from_str-as_str : (e : QueueEventType) → event_from_str (event_as_str e) ≡ e
unfolding event_from_str event_as_str list_beq
event_from_str-as_str changed = refl
event_from_str-as_str deleted = refl

-- What is read back from the table is what was stored, for states and for events.
pub queue_names_roundtrip :
    (s : QueueItemStatus) (e : QueueEventType)
    → (status_from_str (status_as_str s) ≡ s) × (event_from_str (event_as_str e) ≡ e)
queue_names_roundtrip s e = (status_from_str-as_str s, event_from_str-as_str e)
