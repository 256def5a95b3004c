-- ===== src/Status.antt =====
-- include/detail/libatbus_error.h: the codes that the functions of the library return.
-- `success` is 0 and every other code of the enumeration is negative.
use libatbus.Base.{Bool, true, false}

pub data Status : Type 0 where
  success params inner no_data buff_limit malloc_failed scheme bad_data : Status
  invalid_size not_inited already_inited access_deny unpack_failed pack_failed : Status
  atnode_not_found atnode_invalid_id atnode_no_connection atnode_fault_tolerant : Status
  atnode_invalid_msg atnode_bus_id_not_match atnode_ttl atnode_mask_conflict : Status
  atnode_id_conflict : Status
  channel_size_too_small channel_buffer_invalid channel_addr_invalid channel_closing : Status
  node_bad_block_node_num node_bad_block_buff_size : Status
  node_bad_block_wseq_id node_bad_block_cseq_id node_timeout : Status
  shm_get_failed shm_not_found : Status
  sock_bind_failed sock_listen_failed sock_connect_failed : Status
  pipe_bind_failed pipe_listen_failed pipe_connect_failed : Status
  dns_getaddr_failed connection_not_found write_failed read_failed ev_run no_listen : Status

-- The callers' test `res < 0`.
unfoldable pub is_error : Status → Bool
is_error success = false
is_error _ = true
