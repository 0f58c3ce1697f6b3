-- ===== src/Tests/Offsets.antt =====
-- Offsets of a made-up 3.14 layout, each field at its own number, for the walk and for the conversion.
use pyroscope_rs.Base.{◌≡◌, refl, [], ◌∷◌, some, String}
use pyroscope_rs.Base.Equality.{String-discrete}
use pyroscope_rs.Base.Map
use pyroscope_rs.PythonOffsetsTypes.{from}
use pyroscope_rs.PythonOffsetsTypes.Py314
use pyroscope_rs.PythonOffsetsTypes.Fields.{fields_313, fields_314}
use pyroscope_rs.PythonOffsetsTypes.SameName.{FieldName-discrete, field_name_eq, from-same_name}

abbrev pub made_up : Py314.DebugOffsets
made_up = record {
  cookie = 120 ∷ [];
  version = 8;
  free_threaded = 16;
  runtime_state = record { size = 24; finalizing = 32; interpreters_head = 40 };
  interpreter_state = record {
    size = 48;
    id = 56;
    next = 64;
    threads_head = 72;
    threads_main = 80;
    gc = 88;
    imports_modules = 96;
    sysdict = 104;
    builtins = 112;
    ceval_gil = 120;
    gil_runtime_state = 128;
    gil_runtime_state_enabled = 136;
    gil_runtime_state_locked = 144;
    gil_runtime_state_holder = 152;
    code_object_generation = 160;
    tlbc_generation = 168;
  };
  thread_state = record {
    size = 176;
    prev = 184;
    next = 192;
    interp = 200;
    current_frame = 208;
    thread_id = 216;
    native_thread_id = 224;
    datastack_chunk = 232;
    status = 240;
  };
  interpreter_frame = record {
    size = 248;
    previous = 256;
    executable = 264;
    instr_ptr = 272;
    localsplus = 280;
    owner = 288;
    stackpointer = 296;
    tlbc_index = 304;
  };
  code_object = record {
    size = 312;
    filename = 320;
    name = 328;
    qualname = 336;
    linetable = 344;
    firstlineno = 352;
    argcount = 360;
    localsplusnames = 368;
    localspluskinds = 376;
    co_code_adaptive = 384;
    co_tlbc = 392;
  };
  pyobject = record { size = 400; ob_type = 408 };
  type_object = record { size = 416; tp_name = 424; tp_repr = 432; tp_flags = 440 };
  tuple_object = record { size = 448; ob_item = 456; ob_size = 464 };
  list_object = record { size = 472; ob_item = 480; ob_size = 488 };
  set_object = record { size = 496; used = 504; table = 512; mask = 520 };
  dict_object = record { size = 528; ma_keys = 536; ma_values = 544 };
  float_object = record { size = 552; ob_fval = 560 };
  long_object = record { size = 568; lv_tag = 576; ob_digit = 584 };
  bytes_object = record { size = 592; ob_size = 600; ob_sval = 608 };
  unicode_object = record { size = 616; state = 624; length = 632; asciiobject_size = 640 };
  gc = record { size = 648; collecting = 656 };
  gen_object = record { size = 664; gi_name = 672; gi_iframe = 680; gi_frame_state = 688 };
  llist_node = record { next = 696; prev = 704 };
  debugger_support = record {
    eval_breaker = 712;
    remote_debugger_support = 720;
    remote_debugging_enabled = 728;
    debugger_pending_call = 736;
    debugger_script_path = 744;
    debugger_script_path_size = 752;
  };
}

converted :
    Map.get {K = String × String} ("interpreter_frame", "previous") (fields_313 (from made_up))
    ≡ some 256
unfolding Map.get FieldName-discrete String-discrete fields_313 from
converted = refl

from-same_name_example :
    ((from made_up).cookie ≡ made_up.cookie)
    × (Map.get {K = String × String} ("interpreter_frame", "previous") (fields_314 made_up)
        ≡ some 256)
from-same_name_example = from-same_name made_up ("interpreter_frame", "previous") 256 converted
