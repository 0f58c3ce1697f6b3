-- ===== src/PythonOffsetsTypes/Fields.antt =====
-- The fields of the two layouts by struct and field name, written down apart from the conversion.
use pyroscope_rs.Base.{ℕ, String, [], ◌∷◌}
use pyroscope_rs.Base.Map.{Map}
use pyroscope_rs.PythonOffsetsTypes.Py313
use pyroscope_rs.PythonOffsetsTypes.Py314

-- the 64-bit fields of `py313::_Py_DebugOffsets`, in memory order
unfoldable pub fields_313 : Py313.DebugOffsets → Map (String × String) ℕ
fields_313 v =
    (("version", ""), v.version)
    ∷ (("free_threaded", ""), v.free_threaded)
    ∷ (("runtime_state", "size"), v.runtime_state.size)
    ∷ (("runtime_state", "finalizing"), v.runtime_state.finalizing)
    ∷ (("runtime_state", "interpreters_head"), v.runtime_state.interpreters_head)
    ∷ (("interpreter_state", "size"), v.interpreter_state.size)
    ∷ (("interpreter_state", "id"), v.interpreter_state.id)
    ∷ (("interpreter_state", "next"), v.interpreter_state.next)
    ∷ (("interpreter_state", "threads_head"), v.interpreter_state.threads_head)
    ∷ (("interpreter_state", "gc"), v.interpreter_state.gc)
    ∷ (("interpreter_state", "imports_modules"), v.interpreter_state.imports_modules)
    ∷ (("interpreter_state", "sysdict"), v.interpreter_state.sysdict)
    ∷ (("interpreter_state", "builtins"), v.interpreter_state.builtins)
    ∷ (("interpreter_state", "ceval_gil"), v.interpreter_state.ceval_gil)
    ∷ (("interpreter_state", "gil_runtime_state"), v.interpreter_state.gil_runtime_state)
    ∷ (
      ("interpreter_state", "gil_runtime_state_enabled"),
      v.interpreter_state.gil_runtime_state_enabled,
    )
    ∷ (
      ("interpreter_state", "gil_runtime_state_locked"),
      v.interpreter_state.gil_runtime_state_locked,
    )
    ∷ (
      ("interpreter_state", "gil_runtime_state_holder"),
      v.interpreter_state.gil_runtime_state_holder,
    )
    ∷ (("thread_state", "size"), v.thread_state.size)
    ∷ (("thread_state", "prev"), v.thread_state.prev)
    ∷ (("thread_state", "next"), v.thread_state.next)
    ∷ (("thread_state", "interp"), v.thread_state.interp)
    ∷ (("thread_state", "current_frame"), v.thread_state.current_frame)
    ∷ (("thread_state", "thread_id"), v.thread_state.thread_id)
    ∷ (("thread_state", "native_thread_id"), v.thread_state.native_thread_id)
    ∷ (("thread_state", "datastack_chunk"), v.thread_state.datastack_chunk)
    ∷ (("thread_state", "status"), v.thread_state.status)
    ∷ (("interpreter_frame", "size"), v.interpreter_frame.size)
    ∷ (("interpreter_frame", "previous"), v.interpreter_frame.previous)
    ∷ (("interpreter_frame", "executable"), v.interpreter_frame.executable)
    ∷ (("interpreter_frame", "instr_ptr"), v.interpreter_frame.instr_ptr)
    ∷ (("interpreter_frame", "localsplus"), v.interpreter_frame.localsplus)
    ∷ (("interpreter_frame", "owner"), v.interpreter_frame.owner)
    ∷ (("code_object", "size"), v.code_object.size)
    ∷ (("code_object", "filename"), v.code_object.filename)
    ∷ (("code_object", "name"), v.code_object.name)
    ∷ (("code_object", "qualname"), v.code_object.qualname)
    ∷ (("code_object", "linetable"), v.code_object.linetable)
    ∷ (("code_object", "firstlineno"), v.code_object.firstlineno)
    ∷ (("code_object", "argcount"), v.code_object.argcount)
    ∷ (("code_object", "localsplusnames"), v.code_object.localsplusnames)
    ∷ (("code_object", "localspluskinds"), v.code_object.localspluskinds)
    ∷ (("code_object", "co_code_adaptive"), v.code_object.co_code_adaptive)
    ∷ (("pyobject", "size"), v.pyobject.size)
    ∷ (("pyobject", "ob_type"), v.pyobject.ob_type)
    ∷ (("type_object", "size"), v.type_object.size)
    ∷ (("type_object", "tp_name"), v.type_object.tp_name)
    ∷ (("type_object", "tp_repr"), v.type_object.tp_repr)
    ∷ (("type_object", "tp_flags"), v.type_object.tp_flags)
    ∷ (("tuple_object", "size"), v.tuple_object.size)
    ∷ (("tuple_object", "ob_item"), v.tuple_object.ob_item)
    ∷ (("tuple_object", "ob_size"), v.tuple_object.ob_size)
    ∷ (("list_object", "size"), v.list_object.size)
    ∷ (("list_object", "ob_item"), v.list_object.ob_item)
    ∷ (("list_object", "ob_size"), v.list_object.ob_size)
    ∷ (("dict_object", "size"), v.dict_object.size)
    ∷ (("dict_object", "ma_keys"), v.dict_object.ma_keys)
    ∷ (("dict_object", "ma_values"), v.dict_object.ma_values)
    ∷ (("float_object", "size"), v.float_object.size)
    ∷ (("float_object", "ob_fval"), v.float_object.ob_fval)
    ∷ (("long_object", "size"), v.long_object.size)
    ∷ (("long_object", "lv_tag"), v.long_object.lv_tag)
    ∷ (("long_object", "ob_digit"), v.long_object.ob_digit)
    ∷ (("bytes_object", "size"), v.bytes_object.size)
    ∷ (("bytes_object", "ob_size"), v.bytes_object.ob_size)
    ∷ (("bytes_object", "ob_sval"), v.bytes_object.ob_sval)
    ∷ (("unicode_object", "size"), v.unicode_object.size)
    ∷ (("unicode_object", "state"), v.unicode_object.state)
    ∷ (("unicode_object", "length"), v.unicode_object.length)
    ∷ (("unicode_object", "asciiobject_size"), v.unicode_object.asciiobject_size)
    ∷ (("gc", "size"), v.gc.size)
    ∷ (("gc", "collecting"), v.gc.collecting)
    ∷ []

-- the 64-bit fields of `py314::_Py_DebugOffsets`, in memory order
unfoldable pub fields_314 : Py314.DebugOffsets → Map (String × String) ℕ
fields_314 v =
    (("version", ""), v.version)
    ∷ (("free_threaded", ""), v.free_threaded)
    ∷ (("runtime_state", "size"), v.runtime_state.size)
    ∷ (("runtime_state", "finalizing"), v.runtime_state.finalizing)
    ∷ (("runtime_state", "interpreters_head"), v.runtime_state.interpreters_head)
    ∷ (("interpreter_state", "size"), v.interpreter_state.size)
    ∷ (("interpreter_state", "id"), v.interpreter_state.id)
    ∷ (("interpreter_state", "next"), v.interpreter_state.next)
    ∷ (("interpreter_state", "threads_head"), v.interpreter_state.threads_head)
    ∷ (("interpreter_state", "threads_main"), v.interpreter_state.threads_main)
    ∷ (("interpreter_state", "gc"), v.interpreter_state.gc)
    ∷ (("interpreter_state", "imports_modules"), v.interpreter_state.imports_modules)
    ∷ (("interpreter_state", "sysdict"), v.interpreter_state.sysdict)
    ∷ (("interpreter_state", "builtins"), v.interpreter_state.builtins)
    ∷ (("interpreter_state", "ceval_gil"), v.interpreter_state.ceval_gil)
    ∷ (("interpreter_state", "gil_runtime_state"), v.interpreter_state.gil_runtime_state)
    ∷ (
      ("interpreter_state", "gil_runtime_state_enabled"),
      v.interpreter_state.gil_runtime_state_enabled,
    )
    ∷ (
      ("interpreter_state", "gil_runtime_state_locked"),
      v.interpreter_state.gil_runtime_state_locked,
    )
    ∷ (
      ("interpreter_state", "gil_runtime_state_holder"),
      v.interpreter_state.gil_runtime_state_holder,
    )
    ∷ (("interpreter_state", "code_object_generation"), v.interpreter_state.code_object_generation)
    ∷ (("interpreter_state", "tlbc_generation"), v.interpreter_state.tlbc_generation)
    ∷ (("thread_state", "size"), v.thread_state.size)
    ∷ (("thread_state", "prev"), v.thread_state.prev)
    ∷ (("thread_state", "next"), v.thread_state.next)
    ∷ (("thread_state", "interp"), v.thread_state.interp)
    ∷ (("thread_state", "current_frame"), v.thread_state.current_frame)
    ∷ (("thread_state", "thread_id"), v.thread_state.thread_id)
    ∷ (("thread_state", "native_thread_id"), v.thread_state.native_thread_id)
    ∷ (("thread_state", "datastack_chunk"), v.thread_state.datastack_chunk)
    ∷ (("thread_state", "status"), v.thread_state.status)
    ∷ (("interpreter_frame", "size"), v.interpreter_frame.size)
    ∷ (("interpreter_frame", "previous"), v.interpreter_frame.previous)
    ∷ (("interpreter_frame", "executable"), v.interpreter_frame.executable)
    ∷ (("interpreter_frame", "instr_ptr"), v.interpreter_frame.instr_ptr)
    ∷ (("interpreter_frame", "localsplus"), v.interpreter_frame.localsplus)
    ∷ (("interpreter_frame", "owner"), v.interpreter_frame.owner)
    ∷ (("interpreter_frame", "stackpointer"), v.interpreter_frame.stackpointer)
    ∷ (("interpreter_frame", "tlbc_index"), v.interpreter_frame.tlbc_index)
    ∷ (("code_object", "size"), v.code_object.size)
    ∷ (("code_object", "filename"), v.code_object.filename)
    ∷ (("code_object", "name"), v.code_object.name)
    ∷ (("code_object", "qualname"), v.code_object.qualname)
    ∷ (("code_object", "linetable"), v.code_object.linetable)
    ∷ (("code_object", "firstlineno"), v.code_object.firstlineno)
    ∷ (("code_object", "argcount"), v.code_object.argcount)
    ∷ (("code_object", "localsplusnames"), v.code_object.localsplusnames)
    ∷ (("code_object", "localspluskinds"), v.code_object.localspluskinds)
    ∷ (("code_object", "co_code_adaptive"), v.code_object.co_code_adaptive)
    ∷ (("code_object", "co_tlbc"), v.code_object.co_tlbc)
    ∷ (("pyobject", "size"), v.pyobject.size)
    ∷ (("pyobject", "ob_type"), v.pyobject.ob_type)
    ∷ (("type_object", "size"), v.type_object.size)
    ∷ (("type_object", "tp_name"), v.type_object.tp_name)
    ∷ (("type_object", "tp_repr"), v.type_object.tp_repr)
    ∷ (("type_object", "tp_flags"), v.type_object.tp_flags)
    ∷ (("tuple_object", "size"), v.tuple_object.size)
    ∷ (("tuple_object", "ob_item"), v.tuple_object.ob_item)
    ∷ (("tuple_object", "ob_size"), v.tuple_object.ob_size)
    ∷ (("list_object", "size"), v.list_object.size)
    ∷ (("list_object", "ob_item"), v.list_object.ob_item)
    ∷ (("list_object", "ob_size"), v.list_object.ob_size)
    ∷ (("set_object", "size"), v.set_object.size)
    ∷ (("set_object", "used"), v.set_object.used)
    ∷ (("set_object", "table"), v.set_object.table)
    ∷ (("set_object", "mask"), v.set_object.mask)
    ∷ (("dict_object", "size"), v.dict_object.size)
    ∷ (("dict_object", "ma_keys"), v.dict_object.ma_keys)
    ∷ (("dict_object", "ma_values"), v.dict_object.ma_values)
    ∷ (("float_object", "size"), v.float_object.size)
    ∷ (("float_object", "ob_fval"), v.float_object.ob_fval)
    ∷ (("long_object", "size"), v.long_object.size)
    ∷ (("long_object", "lv_tag"), v.long_object.lv_tag)
    ∷ (("long_object", "ob_digit"), v.long_object.ob_digit)
    ∷ (("bytes_object", "size"), v.bytes_object.size)
    ∷ (("bytes_object", "ob_size"), v.bytes_object.ob_size)
    ∷ (("bytes_object", "ob_sval"), v.bytes_object.ob_sval)
    ∷ (("unicode_object", "size"), v.unicode_object.size)
    ∷ (("unicode_object", "state"), v.unicode_object.state)
    ∷ (("unicode_object", "length"), v.unicode_object.length)
    ∷ (("unicode_object", "asciiobject_size"), v.unicode_object.asciiobject_size)
    ∷ (("gc", "size"), v.gc.size)
    ∷ (("gc", "collecting"), v.gc.collecting)
    ∷ (("gen_object", "size"), v.gen_object.size)
    ∷ (("gen_object", "gi_name"), v.gen_object.gi_name)
    ∷ (("gen_object", "gi_iframe"), v.gen_object.gi_iframe)
    ∷ (("gen_object", "gi_frame_state"), v.gen_object.gi_frame_state)
    ∷ (("llist_node", "next"), v.llist_node.next)
    ∷ (("llist_node", "prev"), v.llist_node.prev)
    ∷ (("debugger_support", "eval_breaker"), v.debugger_support.eval_breaker)
    ∷ (("debugger_support", "remote_debugger_support"), v.debugger_support.remote_debugger_support)
    ∷ (
      ("debugger_support", "remote_debugging_enabled"),
      v.debugger_support.remote_debugging_enabled,
    )
    ∷ (("debugger_support", "debugger_pending_call"), v.debugger_support.debugger_pending_call)
    ∷ (("debugger_support", "debugger_script_path"), v.debugger_support.debugger_script_path)
    ∷ (
      ("debugger_support", "debugger_script_path_size"),
      v.debugger_support.debugger_script_path_size,
    )
    ∷ []
