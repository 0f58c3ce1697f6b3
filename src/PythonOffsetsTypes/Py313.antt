-- ===== src/PythonOffsetsTypes/Py313.antt =====
-- kit/python_offsets_types/src/py313.rs: the `_Py_DebugOffsets` of CPython 3.13. Every field but the cookie is a
-- 64-bit number; the cookie is 8 bytes.
use pyroscope_rs.Base.{ℕ, List}

pub record RuntimeState : Type 0 where
  pub size : ℕ
  pub finalizing : ℕ
  pub interpreters_head : ℕ

pub record InterpreterState : Type 0 where
  pub size : ℕ
  pub id : ℕ
  pub next : ℕ
  pub threads_head : ℕ
  pub gc : ℕ
  pub imports_modules : ℕ
  pub sysdict : ℕ
  pub builtins : ℕ
  pub ceval_gil : ℕ
  pub gil_runtime_state : ℕ
  pub gil_runtime_state_enabled : ℕ
  pub gil_runtime_state_locked : ℕ
  pub gil_runtime_state_holder : ℕ

pub record ThreadState : Type 0 where
  pub size : ℕ
  pub prev : ℕ
  pub next : ℕ
  pub interp : ℕ
  pub current_frame : ℕ
  pub thread_id : ℕ
  pub native_thread_id : ℕ
  pub datastack_chunk : ℕ
  pub status : ℕ

pub record InterpreterFrame : Type 0 where
  pub size : ℕ
  pub previous : ℕ
  pub executable : ℕ
  pub instr_ptr : ℕ
  pub localsplus : ℕ
  pub owner : ℕ

pub record CodeObject : Type 0 where
  pub size : ℕ
  pub filename : ℕ
  pub name : ℕ
  pub qualname : ℕ
  pub linetable : ℕ
  pub firstlineno : ℕ
  pub argcount : ℕ
  pub localsplusnames : ℕ
  pub localspluskinds : ℕ
  pub co_code_adaptive : ℕ

pub record PyObject : Type 0 where
  pub size : ℕ
  pub ob_type : ℕ

pub record TypeObject : Type 0 where
  pub size : ℕ
  pub tp_name : ℕ
  pub tp_repr : ℕ
  pub tp_flags : ℕ

pub record TupleObject : Type 0 where
  pub size : ℕ
  pub ob_item : ℕ
  pub ob_size : ℕ

pub record ListObject : Type 0 where
  pub size : ℕ
  pub ob_item : ℕ
  pub ob_size : ℕ

pub record DictObject : Type 0 where
  pub size : ℕ
  pub ma_keys : ℕ
  pub ma_values : ℕ

pub record FloatObject : Type 0 where
  pub size : ℕ
  pub ob_fval : ℕ

pub record LongObject : Type 0 where
  pub size : ℕ
  pub lv_tag : ℕ
  pub ob_digit : ℕ

pub record BytesObject : Type 0 where
  pub size : ℕ
  pub ob_size : ℕ
  pub ob_sval : ℕ

pub record UnicodeObject : Type 0 where
  pub size : ℕ
  pub state : ℕ
  pub length : ℕ
  pub asciiobject_size : ℕ

pub record Gc : Type 0 where
  pub size : ℕ
  pub collecting : ℕ

pub record DebugOffsets : Type 0 where
  pub cookie : List ℕ
  pub version : ℕ
  pub free_threaded : ℕ
  pub runtime_state : RuntimeState
  pub interpreter_state : InterpreterState
  pub thread_state : ThreadState
  pub interpreter_frame : InterpreterFrame
  pub code_object : CodeObject
  pub pyobject : PyObject
  pub type_object : TypeObject
  pub tuple_object : TupleObject
  pub list_object : ListObject
  pub dict_object : DictObject
  pub float_object : FloatObject
  pub long_object : LongObject
  pub bytes_object : BytesObject
  pub unicode_object : UnicodeObject
  pub gc : Gc
