-- ===== src/Error.antt =====
-- on_demand/error.rs of the on-demand crate: the errors that every part returns.

pub data OnDemandError : Type 0 where
  generic account_borrow_error account_not_found anchor_parse anchor_parse_error : OnDemandError
  check_size_error decimal_conversion_error decrypt_error : OnDemandError
  event_listener_routine_failure evm_error : OnDemandError
  function_result_ix_incorrect_target_chain heartbeat_routine_failure : OnDemandError
  integer_overflow_error invalid_chain invalid_data invalid_discriminator : OnDemandError
  invalid_instruction_error invalid_keypair_file invalid_native_mint invalid_quote : OnDemandError
  invalid_quote_error invalid_signature ipfs_network_error ipfs_parse_error : OnDemandError
  key_parse_error mr_enclave_mismatch network_error parse_error : OnDemandError
  pda_derivation_error quote_parse_error qvn_tx_send_failure sgx_error : OnDemandError
  sgx_write_error solana_blockhash_error solana_missing_signer : OnDemandError
  solana_payer_signer_missing solana_payer_mismatch solana_instruction_overflow : OnDemandError
  solana_instructions_empty tx_compile_err tx_deserialization_error tx_failure : OnDemandError
  unexpected solana_sign_error io_error key_derivation_failed : OnDemandError
  invalid_secret_key env_variable_missing account_deserialize_error : OnDemandError
  not_enough_samples illegal_feed_value switchboard_randomness_too_old : OnDemandError
  address_lookup_table_fetch_error address_lookup_table_deserialize_error : OnDemandError
  invalid_size stale_result : OnDemandError
