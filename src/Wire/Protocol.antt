-- ===== src/Wire/Protocol.antt =====
-- The protocol constants that the other modules use: internal/wire/protocol.go, info.go, dpb.go and
-- tpb.go, under the names declared there.
use go_firebird_driver.Prelude.{ℕ}

abbrev pub op_attach : ℕ
op_attach = 19

abbrev pub op_info_database : ℕ
op_info_database = 40

abbrev pub op_transaction : ℕ
op_transaction = 29

abbrev pub op_commit : ℕ
op_commit = 30

abbrev pub op_rollback : ℕ
op_rollback = 31

abbrev pub op_commit_retaining : ℕ
op_commit_retaining = 50

abbrev pub op_info_transaction : ℕ
op_info_transaction = 42

abbrev pub op_allocate_statement : ℕ
op_allocate_statement = 62

abbrev pub op_prepare_statement : ℕ
op_prepare_statement = 68

abbrev pub op_execute : ℕ
op_execute = 63

abbrev pub op_execute2 : ℕ
op_execute2 = 76

abbrev pub op_fetch : ℕ
op_fetch = 65

abbrev pub op_fetch_response : ℕ
op_fetch_response = 66

abbrev pub op_free_statement : ℕ
op_free_statement = 67

abbrev pub op_info_sql : ℕ
op_info_sql = 70

abbrev pub op_sql_response : ℕ
op_sql_response = 78

abbrev pub op_response : ℕ
op_response = 9

abbrev pub op_dummy : ℕ
op_dummy = 71

abbrev pub invalid_object : ℕ
invalid_object = 0xFFFF

abbrev pub dsql_close : ℕ
dsql_close = 1

abbrev pub dsql_drop : ℕ
dsql_drop = 2

abbrev pub stmt_insert : ℕ
stmt_insert = 2

abbrev pub stmt_update : ℕ
stmt_update = 3

abbrev pub stmt_delete : ℕ
stmt_delete = 4

abbrev pub sql_dialect_current : ℕ
sql_dialect_current = 3

abbrev pub isc_arg_end : ℕ
isc_arg_end = 0

abbrev pub isc_arg_gds : ℕ
isc_arg_gds = 1

abbrev pub isc_arg_string : ℕ
isc_arg_string = 2

abbrev pub isc_arg_cstring : ℕ
isc_arg_cstring = 3

abbrev pub isc_arg_number : ℕ
isc_arg_number = 4

abbrev pub isc_arg_interpreted : ℕ
isc_arg_interpreted = 5

abbrev pub isc_arg_warning : ℕ
isc_arg_warning = 18

abbrev pub isc_arg_sql_state : ℕ
isc_arg_sql_state = 19

abbrev pub isc_info_end : ℕ
isc_info_end = 1

abbrev pub isc_info_truncated : ℕ
isc_info_truncated = 2

abbrev pub isc_info_error : ℕ
isc_info_error = 3

abbrev pub isc_info_data_not_ready : ℕ
isc_info_data_not_ready = 4

abbrev pub isc_dpb_version2 : ℕ
isc_dpb_version2 = 2

abbrev pub isc_tpb_version3 : ℕ
isc_tpb_version3 = 3

abbrev pub sql_text : ℕ
sql_text = 452

abbrev pub sql_varying : ℕ
sql_varying = 448

abbrev pub sql_short : ℕ
sql_short = 500

abbrev pub sql_long : ℕ
sql_long = 496

abbrev pub sql_float : ℕ
sql_float = 482

abbrev pub sql_double : ℕ
sql_double = 480

abbrev pub sql_timestamp : ℕ
sql_timestamp = 510

abbrev pub sql_blob : ℕ
sql_blob = 520

abbrev pub sql_array : ℕ
sql_array = 540

abbrev pub sql_type_date : ℕ
sql_type_date = 570

abbrev pub sql_type_time : ℕ
sql_type_time = 560

abbrev pub sql_int64 : ℕ
sql_int64 = 580

abbrev pub sql_int128 : ℕ
sql_int128 = 32752

abbrev pub sql_timestamp_tz : ℕ
sql_timestamp_tz = 32754

abbrev pub sql_time_tz : ℕ
sql_time_tz = 32756

abbrev pub sql_time_tz_ex : ℕ
sql_time_tz_ex = 32750

abbrev pub sql_timestamp_tz_ex : ℕ
sql_timestamp_tz_ex = 32748

abbrev pub sql_dec16 : ℕ
sql_dec16 = 32760

abbrev pub sql_dec34 : ℕ
sql_dec34 = 32762

abbrev pub sql_boolean : ℕ
sql_boolean = 32764

abbrev pub sql_null : ℕ
sql_null = 32766

abbrev pub blr_short : ℕ
blr_short = 7

abbrev pub blr_long : ℕ
blr_long = 8

abbrev pub blr_float : ℕ
blr_float = 10

abbrev pub blr_sql_date : ℕ
blr_sql_date = 12

abbrev pub blr_sql_time : ℕ
blr_sql_time = 13

abbrev pub blr_text : ℕ
blr_text = 14

abbrev pub blr_text2 : ℕ
blr_text2 = 15

abbrev pub blr_int64 : ℕ
blr_int64 = 16

abbrev pub blr_blob2 : ℕ
blr_blob2 = 17

abbrev pub blr_bool : ℕ
blr_bool = 23

abbrev pub blr_dec64 : ℕ
blr_dec64 = 24

abbrev pub blr_dec128 : ℕ
blr_dec128 = 25

abbrev pub blr_int128 : ℕ
blr_int128 = 26

abbrev pub blr_double : ℕ
blr_double = 27

abbrev pub blr_ex_time_tz : ℕ
blr_ex_time_tz = 30

abbrev pub blr_ex_timestamp_tz : ℕ
blr_ex_timestamp_tz = 31

abbrev pub blr_timestamp : ℕ
blr_timestamp = 35

abbrev pub blr_varying2 : ℕ
blr_varying2 = 38

abbrev pub blr_version5 : ℕ
blr_version5 = 5

abbrev pub blr_begin : ℕ
blr_begin = 2

abbrev pub blr_message : ℕ
blr_message = 4

abbrev pub blr_end : ℕ
blr_end = 255

abbrev pub blr_eoc : ℕ
blr_eoc = 76

abbrev pub isc_info_sql_select : ℕ
isc_info_sql_select = 4

abbrev pub isc_info_sql_bind : ℕ
isc_info_sql_bind = 5

abbrev pub isc_info_sql_num_variables : ℕ
isc_info_sql_num_variables = 6

abbrev pub isc_info_sql_describe_vars : ℕ
isc_info_sql_describe_vars = 7

abbrev pub isc_info_sql_describe_end : ℕ
isc_info_sql_describe_end = 8

abbrev pub isc_info_sql_sqlda_seq : ℕ
isc_info_sql_sqlda_seq = 9

abbrev pub isc_info_sql_type : ℕ
isc_info_sql_type = 11

abbrev pub isc_info_sql_sub_type : ℕ
isc_info_sql_sub_type = 12

abbrev pub isc_info_sql_scale : ℕ
isc_info_sql_scale = 13

abbrev pub isc_info_sql_length : ℕ
isc_info_sql_length = 14

abbrev pub isc_info_sql_null_ind : ℕ
isc_info_sql_null_ind = 15

abbrev pub isc_info_sql_field : ℕ
isc_info_sql_field = 16

abbrev pub isc_info_sql_relation : ℕ
isc_info_sql_relation = 17

abbrev pub isc_info_sql_owner : ℕ
isc_info_sql_owner = 18

abbrev pub isc_info_sql_alias : ℕ
isc_info_sql_alias = 19

abbrev pub isc_info_sql_sqlda_start : ℕ
isc_info_sql_sqlda_start = 20

abbrev pub isc_info_sql_stmt_type : ℕ
isc_info_sql_stmt_type = 21

abbrev pub isc_info_sql_records : ℕ
isc_info_sql_records = 23

abbrev pub isc_info_req_select_count : ℕ
isc_info_req_select_count = 13

abbrev pub isc_info_req_insert_count : ℕ
isc_info_req_insert_count = 14

abbrev pub isc_info_req_update_count : ℕ
isc_info_req_update_count = 15

abbrev pub isc_info_req_delete_count : ℕ
isc_info_req_delete_count = 16

abbrev pub isc_dpb_user_name : ℕ
isc_dpb_user_name = 28

abbrev pub isc_dpb_lc_ctype : ℕ
isc_dpb_lc_ctype = 48

abbrev pub isc_dpb_sql_dialect : ℕ
isc_dpb_sql_dialect = 63

abbrev pub isc_dpb_utf8_filename : ℕ
isc_dpb_utf8_filename = 77

abbrev pub isc_dpb_client_version : ℕ
isc_dpb_client_version = 80

abbrev pub isc_dpb_remote_protocol : ℕ
isc_dpb_remote_protocol = 81

abbrev pub isc_dpb_host_name : ℕ
isc_dpb_host_name = 82

abbrev pub isc_dpb_os_user : ℕ
isc_dpb_os_user = 83

abbrev pub isc_dpb_auth_plugin_list : ℕ
isc_dpb_auth_plugin_list = 85

abbrev pub isc_dpb_auth_plugin_name : ℕ
isc_dpb_auth_plugin_name = 86

abbrev pub isc_dpb_session_time_zone : ℕ
isc_dpb_session_time_zone = 91

abbrev pub isc_dpb_set_bind : ℕ
isc_dpb_set_bind = 93

abbrev pub isc_tpb_consistency : ℕ
isc_tpb_consistency = 1

abbrev pub isc_tpb_concurrency : ℕ
isc_tpb_concurrency = 2

abbrev pub isc_tpb_wait : ℕ
isc_tpb_wait = 6

abbrev pub isc_tpb_read : ℕ
isc_tpb_read = 8

abbrev pub isc_tpb_write : ℕ
isc_tpb_write = 9

abbrev pub isc_tpb_read_committed : ℕ
isc_tpb_read_committed = 15

abbrev pub isc_tpb_rec_version : ℕ
isc_tpb_rec_version = 17
