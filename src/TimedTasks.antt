-- ===== src/TimedTasks.antt =====
-- Timed tasks: code/frameworks/framework_public/timed_task_scheduler.cpp and
-- timed_task_scheduler.h. The operation of a task is known by a number, and does not change the tasks.
pub mod Pass
pub mod Execution
pub mod Soundness
pub mod Registration
pub mod Runs
mod Examples
use cpp_assistant.Prelude.{
  ℕ, zero, suc, ◌+◌, Bool, true, false, not, ◌&&◌, ◌||◌, Option, none, some, List, [], ◌∷◌, ℤ, pos,
  negsuc, ◌+ℤ◌, ◌*ℤ◌, leb_ℤ, ltb_ℤ, ◌==ℤ◌, abs, if◌then◌else◌, ltb,
}
use cpp_assistant.Prelude.TextMap.{find, insert, erase, modify}
use cpp_assistant.Strings.{Text}

-- RET_OK and RET_FAILED.
abbrev pub ret_ok : ℤ
ret_ok = pos 0

abbrev pub ret_failed : ℤ
ret_failed = negsuc 0

abbrev pub triggered_before_some_event : ℤ
triggered_before_some_event = negsuc 0

abbrev pub triggered_on_some_event : ℤ
triggered_on_some_event = pos 0

abbrev pub triggered_after_some_event : ℤ
triggered_after_some_event = pos 1

abbrev pub triggered_periodically : ℤ
triggered_periodically = pos 2

abbrev pub min_trigger_interval : ℕ
min_trigger_interval = 1

abbrev pub max_trigger_interval : ℕ
max_trigger_interval = 86400000

-- `timed_task_config`. `time` is the union of event_time and last_op_time, in microseconds, and `span`
-- that of time_offset and time_interval, in milliseconds.
pub record TimedTaskConfig : Type 0 where
  pub trigger_type : ℤ
  pub has_triggered : Bool
  pub time : ℤ
  pub span : ℤ
  pub operation : Option ℕ

-- `*m_tasks`, in the order of the names; a null `m_tasks` is `none`.
abbrev pub TimedTaskMap : Type 0
TimedTaskMap = List (Text × TimedTaskConfig)

unfoldable pub exists : Option TimedTaskMap → Text → Bool
exists none name = false
exists (some tasks) name = elim (find name tasks) [ none ↦ false | some t ↦ true ]

abbrev pub is_null : Option ℕ → Bool
is_null none = true
is_null (some op) = false

unfoldable pub task_info_is_ok : TimedTaskConfig → Bool
task_info_is_ok info =
    if is_null info.operation
    then false
    else not (
        not (triggered_before_some_event ==ℤ info.trigger_type)
        && not (triggered_on_some_event ==ℤ info.trigger_type)
        && not (triggered_after_some_event ==ℤ info.trigger_type)
        && not (triggered_periodically ==ℤ info.trigger_type))

abbrev pub is_periodic : TimedTaskConfig → Bool
is_periodic t = triggered_periodically ==ℤ t.trigger_type

abbrev pub clamped : ℕ → ℕ
clamped interval =
    if ltb interval min_trigger_interval
    then min_trigger_interval
    else if ltb max_trigger_interval interval
    then max_trigger_interval
    else interval

unfoldable pub actual_info : TimedTaskConfig → TimedTaskConfig
actual_info info =
    if is_periodic info
    then record info { span = pos (clamped (abs info.span)) }
    else record info { time = pos (abs info.time) }

-- The insertion cannot fail, since the name is not in the map.
unfoldable pub register_one : Option TimedTaskMap → Text → TimedTaskConfig → ℤ × Option TimedTaskMap
register_one none name info = (ret_failed, none)
register_one (some tasks) name info =
    if exists (some tasks) name
    then (ret_ok, some tasks)
    else if not (task_info_is_ok info)
    then (ret_failed, some tasks)
    else (ret_ok, some (insert name (actual_info info) tasks))

unfoldable pub unregister_one : Option TimedTaskMap → Text → ℤ × Option TimedTaskMap
unregister_one none name = (ret_failed, none)
unregister_one (some tasks) name =
    if exists (some tasks) name then (ret_ok, some (erase name tasks)) else (ret_failed, some tasks)

abbrev pub retimed : ℤ → ℤ → TimedTaskConfig → TimedTaskConfig
retimed event_time time_offset t = record t {
  time = pos (abs event_time);
  span = pos (abs time_offset);
}

unfoldable pub set_event_trigger_time : Option TimedTaskMap → Text → ℤ → ℤ → ℤ × Option TimedTaskMap
set_event_trigger_time none name event_time time_offset = (ret_failed, none)
set_event_trigger_time (some tasks) name event_time time_offset = elim (find name tasks) [
  | none ↦ (ret_failed, some tasks)
  | some t ↦
      if is_periodic t
      then (ret_failed, some tasks)
      else (ret_ok, some (modify name (retimed event_time time_offset) tasks))
]

unfoldable pub trigger_time : TimedTaskConfig → ℤ
trigger_time t =
    if is_periodic t
    then t.time +ℤ t.span *ℤ pos 1000
    else t.time +ℤ t.trigger_type *ℤ t.span *ℤ pos 1000

-- One round of the loop of `check_and_execute`: whether the operation is called, the task after that,
-- how often the clock was read before the next round, and `cur_time` there.
pub record Round : Type 0 where
  pub is_called : Bool
  pub task : TimedTaskConfig
  pub readings : ℕ
  pub cur_time : ℤ

-- `clock k` is what the call number `k` of `get_utc_microseconds` returns. Two calls measure the time
-- spent, and `continue` skips the one at the end of the loop.
unfoldable pub round : (ℕ → ℤ) → ℕ → ℤ → TimedTaskConfig → Round
round clock k cur t =
    if is_null t.operation
    then record { is_called = false; task = t; readings = k; cur_time = cur }
    else if not (leb_ℤ (trigger_time t) cur)
    then record { is_called = false; task = t; readings = k + 1; cur_time = clock k }
    else if is_periodic t
    then record {
      is_called = true;
      task = record t { time = cur };
      readings = k + 3;
      cur_time = clock (k + 2);
    }
    else if t.has_triggered
    then record { is_called = false; task = t; readings = k + 1; cur_time = cur }
    else record {
      is_called = true;
      task = record t { has_triggered = true };
      readings = k + 3;
      cur_time = clock (k + 2);
    }

-- The names of the tasks of which the operation is called, and the tasks after that.
unfoldable pub check_from : (ℕ → ℤ) → ℕ → ℤ → TimedTaskMap → List Text × TimedTaskMap
check_from clock k cur [] = ([], [])
check_from clock k cur ((name, t) ∷ m) =
    let r = round clock k cur t in
    let (calls, m') = check_from clock r.readings r.cur_time m in
    (if r.is_called then name ∷ calls else calls, (name, r.task) ∷ m')

unfoldable pub check_and_execute : Option TimedTaskMap → (ℕ → ℤ) → List Text × Option TimedTaskMap
check_and_execute none clock = ([], none)
check_and_execute (some tasks) clock =
    let (calls, tasks') = check_from clock 1 (clock 0) tasks in (calls, some tasks')
