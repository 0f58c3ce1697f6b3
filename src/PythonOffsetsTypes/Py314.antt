-- ===== src/PythonOffsetsTypes/Py314.antt =====
-- kit/python_offsets_types/src/py314.rs: the `_Py_DebugOffsets` of CPython 3.14. Every field but the cookie is a
-- 64-bit number; the cookie is 8 bytes.
use pyroscope_rs.Base.{ℕ, List}

pub record RuntimeState : Type 0 where
  pub size : ℕ
  pub finalizing : ℕ
  pub interpreters_head : ℕ

pub record InterpreterState : Type 0 where
  pub size : ℕ
  pub id : ℕ
  pub next : ℕ
  pub threads_head : ℕ
  pub threads_main : ℕ
  pub gc : ℕ
  pub imports_modules : ℕ
  pub sysdict : ℕ
  pub builtins : ℕ
  pub ceval_gil : ℕ
  pub gil_runtime_state : ℕ
  pub gil_runtime_state_enabled : ℕ
  pub gil_runtime_state_locked : ℕ
  pub gil_runtime_state_holder : ℕ
  pub code_object_generation : ℕ
  pub tlbc_generation : ℕ

pub record ThreadState : Type 0 where
  pub size : ℕ
  pub prev : ℕ
  pub next : ℕ
  pub interp : ℕ
  pub current_frame : ℕ
  pub thread_id : ℕ
  pub native_thread_id : ℕ
  pub datastack_chunk : ℕ
  pub status : ℕ

pub record InterpreterFrame : Type 0 where
  pub size : ℕ
  pub previous : ℕ
  pub executable : ℕ
  pub instr_ptr : ℕ
  pub localsplus : ℕ
  pub owner : ℕ
  pub stackpointer : ℕ
  pub tlbc_index : ℕ

pub record CodeObject : Type 0 where
  pub size : ℕ
  pub filename : ℕ
  pub name : ℕ
  pub qualname : ℕ
  pub linetable : ℕ
  pub firstlineno : ℕ
  pub argcount : ℕ
  pub localsplusnames : ℕ
  pub localspluskinds : ℕ
  pub co_code_adaptive : ℕ
  pub co_tlbc : ℕ

pub record PyObject : Type 0 where
  pub size : ℕ
  pub ob_type : ℕ

pub record TypeObject : Type 0 where
  pub size : ℕ
  pub tp_name : ℕ
  pub tp_repr : ℕ
  pub tp_flags : ℕ

pub record TupleObject : Type 0 where
  pub size : ℕ
  pub ob_item : ℕ
  pub ob_size : ℕ

pub record ListObject : Type 0 where
  pub size : ℕ
  pub ob_item : ℕ
  pub ob_size : ℕ

pub record SetObject : Type 0 where
  pub size : ℕ
  pub used : ℕ
  pub table : ℕ
  pub mask : ℕ

pub record DictObject : Type 0 where
  pub size : ℕ
  pub ma_keys : ℕ
  pub ma_values : ℕ

pub record FloatObject : Type 0 where
  pub size : ℕ
  pub ob_fval : ℕ

pub record LongObject : Type 0 where
  pub size : ℕ
  pub lv_tag : ℕ
  pub ob_digit : ℕ

pub record BytesObject : Type 0 where
  pub size : ℕ
  pub ob_size : ℕ
  pub ob_sval : ℕ

pub record UnicodeObject : Type 0 where
  pub size : ℕ
  pub state : ℕ
  pub length : ℕ
  pub asciiobject_size : ℕ

pub record Gc : Type 0 where
  pub size : ℕ
  pub collecting : ℕ

pub record GenObject : Type 0 where
  pub size : ℕ
  pub gi_name : ℕ
  pub gi_iframe : ℕ
  pub gi_frame_state : ℕ

pub record LlistNode : Type 0 where
  pub next : ℕ
  pub prev : ℕ

pub record DebuggerSupport : Type 0 where
  pub eval_breaker : ℕ
  pub remote_debugger_support : ℕ
  pub remote_debugging_enabled : ℕ
  pub debugger_pending_call : ℕ
  pub debugger_script_path : ℕ
  pub debugger_script_path_size : ℕ

pub record AsyncioTaskObject : Type 0 where
  pub size : ℕ
  pub task_name : ℕ
  pub task_awaited_by : ℕ
  pub task_is_task : ℕ
  pub task_awaited_by_is_set : ℕ
  pub task_coro : ℕ
  pub task_node : ℕ

pub record AsyncioInterpreterState : Type 0 where
  pub size : ℕ
  pub asyncio_tasks_head : ℕ

pub record AsyncioThreadState : Type 0 where
  pub size : ℕ
  pub asyncio_running_loop : ℕ
  pub asyncio_running_task : ℕ
  pub asyncio_tasks_head : ℕ

pub record DebugOffsets : Type 0 where
  pub cookie : List ℕ
  pub version : ℕ
  pub free_threaded : ℕ
  pub runtime_state : RuntimeState
  pub interpreter_state : InterpreterState
  pub thread_state : ThreadState
  pub interpreter_frame : InterpreterFrame
  pub code_object : CodeObject
  pub pyobject : PyObject
  pub type_object : TypeObject
  pub tuple_object : TupleObject
  pub list_object : ListObject
  pub set_object : SetObject
  pub dict_object : DictObject
  pub float_object : FloatObject
  pub long_object : LongObject
  pub bytes_object : BytesObject
  pub unicode_object : UnicodeObject
  pub gc : Gc
  pub gen_object : GenObject
  pub llist_node : LlistNode
  pub debugger_support : DebuggerSupport

pub record AsyncioModuleDebugOffsets : Type 0 where
  pub asyncio_task_object : AsyncioTaskObject
  pub asyncio_interpreter_state : AsyncioInterpreterState
  pub asyncio_thread_state : AsyncioThreadState
