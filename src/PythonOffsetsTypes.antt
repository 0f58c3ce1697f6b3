-- ===== src/PythonOffsetsTypes.antt =====
-- kit/python_offsets_types/src/lib.rs: the 3.14 offsets in the 3.13 layout.
pub mod Py313
pub mod Py314
pub mod Fields
pub mod SameName
use Py313
use Py314

-- `impl From<&py314::_Py_DebugOffsets> for py313::_Py_DebugOffsets`
unfoldable pub from : Py314.DebugOffsets → Py313.DebugOffsets
from v = record {
  cookie = v.cookie;
  version = v.version;
  free_threaded = v.free_threaded;
  runtime_state = record {
    size = v.runtime_state.size;
    finalizing = v.runtime_state.finalizing;
    interpreters_head = v.runtime_state.interpreters_head;
  };
  interpreter_state = record {
    size = v.interpreter_state.size;
    id = v.interpreter_state.id;
    next = v.interpreter_state.next;
    threads_head = v.interpreter_state.threads_head;
    gc = v.interpreter_state.gc;
    imports_modules = v.interpreter_state.imports_modules;
    sysdict = v.interpreter_state.sysdict;
    builtins = v.interpreter_state.builtins;
    ceval_gil = v.interpreter_state.ceval_gil;
    gil_runtime_state = v.interpreter_state.gil_runtime_state;
    gil_runtime_state_enabled = v.interpreter_state.gil_runtime_state_enabled;
    gil_runtime_state_locked = v.interpreter_state.gil_runtime_state_locked;
    gil_runtime_state_holder = v.interpreter_state.gil_runtime_state_holder;
  };
  thread_state = record {
    size = v.thread_state.size;
    prev = v.thread_state.prev;
    next = v.thread_state.next;
    interp = v.thread_state.interp;
    current_frame = v.thread_state.current_frame;
    thread_id = v.thread_state.thread_id;
    native_thread_id = v.thread_state.native_thread_id;
    datastack_chunk = v.thread_state.datastack_chunk;
    status = v.thread_state.status;
  };
  interpreter_frame = record {
    size = v.interpreter_frame.size;
    previous = v.interpreter_frame.previous;
    executable = v.interpreter_frame.executable;
    instr_ptr = v.interpreter_frame.instr_ptr;
    localsplus = v.interpreter_frame.localsplus;
    owner = v.interpreter_frame.owner;
  };
  code_object = record {
    size = v.code_object.size;
    filename = v.code_object.filename;
    name = v.code_object.name;
    qualname = v.code_object.qualname;
    linetable = v.code_object.linetable;
    firstlineno = v.code_object.firstlineno;
    argcount = v.code_object.argcount;
    localsplusnames = v.code_object.localsplusnames;
    localspluskinds = v.code_object.localspluskinds;
    co_code_adaptive = v.code_object.co_code_adaptive;
  };
  pyobject = record { size = v.pyobject.size; ob_type = v.pyobject.ob_type };
  type_object = record {
    size = v.type_object.size;
    tp_name = v.type_object.tp_name;
    tp_repr = v.type_object.tp_repr;
    tp_flags = v.type_object.tp_flags;
  };
  tuple_object = record {
    size = v.tuple_object.size;
    ob_item = v.tuple_object.ob_item;
    ob_size = v.tuple_object.ob_size;
  };
  list_object = record {
    size = v.list_object.size;
    ob_item = v.list_object.ob_item;
    ob_size = v.list_object.ob_size;
  };
  dict_object = record {
    size = v.dict_object.size;
    ma_keys = v.dict_object.ma_keys;
    ma_values = v.dict_object.ma_values;
  };
  float_object = record { size = v.float_object.size; ob_fval = v.float_object.ob_fval };
  long_object = record {
    size = v.long_object.size;
    lv_tag = v.long_object.lv_tag;
    ob_digit = v.long_object.ob_digit;
  };
  bytes_object = record {
    size = v.bytes_object.size;
    ob_size = v.bytes_object.ob_size;
    ob_sval = v.bytes_object.ob_sval;
  };
  unicode_object = record {
    size = v.unicode_object.size;
    state = v.unicode_object.state;
    length = v.unicode_object.length;
    asciiobject_size = v.unicode_object.asciiobject_size;
  };
  gc = record { size = v.gc.size; collecting = v.gc.collecting };
}
