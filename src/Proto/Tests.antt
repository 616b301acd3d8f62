-- ===== src/Proto/Tests.antt =====
-- The conversion of error codes in lib/wpc_proto/internal_modules/common.c on two results.
use c_mesh_api.Wpc.Errors.{app_res_access_denied, app_res_operation_not_supported}
use c_mesh_api.Proto.{
  common_convert_error_code, app_res_access_denied, app_res_operation_not_supported,
  error_code_access_denied,
}
use c_mesh_api.Prelude.{ok, fault, ◌≡◌, refl}

convert_access_denied :
    common_convert_error_code app_res_access_denied ≡ ok error_code_access_denied
unfolding common_convert_error_code
convert_access_denied = refl

convert_operation_not_supported : common_convert_error_code app_res_operation_not_supported ≡ fault
unfolding common_convert_error_code
convert_operation_not_supported = refl
