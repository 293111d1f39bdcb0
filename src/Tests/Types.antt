-- ===== src/Tests/Types.antt =====
-- Conversions of src/types.rs on Linux.
use ulockmgr.Prelude.{◌≡◌, refl}
use ulockmgr.IoError.{custom, invalid_input, ok, err}
use ulockmgr.Types.Encoding.{Flock, as_i32, params_try_from, type_try_from, whence_try_from}
use std.Equiv.{IsEquiv}
use ulockmgr.Types.Accepted.{into_accepted, into_accepted-IsEquiv}
use ulockmgr.Tests.Platform.{linux, linux-IsLibc, whole_file}

abbrev raw_whole_file : Flock
raw_whole_file = record { l_type = 1; l_whence = 0; l_start = 0; l_len = 0; l_pid = 0 }

raw_whole_file_accepted : params_try_from linux raw_whole_file ≡ ok whole_file
unfolding params_try_from type_try_from whence_try_from as_i32
raw_whole_file_accepted = refl

-- -1 is no lock type.
negative_type_refused :
    params_try_from linux (record raw_whole_file { l_type = 65535 }) ≡ err (custom invalid_input)
unfolding params_try_from type_try_from as_i32
negative_type_refused = refl

into_accepted-IsEquiv_example : IsEquiv (into_accepted linux linux-IsLibc)
into_accepted-IsEquiv_example = into_accepted-IsEquiv linux linux-IsLibc
