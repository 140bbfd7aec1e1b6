-- ===== src/Worker/Program/Whole.antt =====
-- A whole run of the program over one round of packets.
use grpc_server.Base.{
  ◌≡◌, refl, Option, none, some, length, c_str, memcmp_eq, strcmp_eq, starts_nul,
}
use grpc_server.Cache.{
  alloc_node, alloc_key, free_node, free_key, lookup_cache, insert_key, add_to_cache, free_entries,
}
use grpc_server.Cache.Table.{sample_hash, remove, is_full, add_first}
use grpc_server.IpCache.{key_bytes, ip_str_to_key, lookup_ip_cache, add_to_ip_cache}
use grpc_server.Metrics.{read_text, read_number, is_cpu, read_cpus, open_cpus}
use grpc_server.Packets.{
  lookup_result, decide_ip, decide_domain, remember_ip, remember_domain, on_ip_result,
  on_domain_result, process_ip, process_domain, unless_exception, process_packet, process_all,
  pakage_processing,
}
use grpc_server.Packets.Forward.{
  write_bytes, learn_neighbor_mac, rewrite_ipv4, rewrite_packet, send_packet,
  forward_packet_with_rewrite, package_sending_decision, port_in_list, check_is_exception,
}
use grpc_server.Parser.{
  read16, read32, read_bytes, has, parse_l4, parse_l3, parse_dns, parsing_pakage,
}
use grpc_server.Ports.{
  find_port_from, find_port_by_dev_name, set_up, set_up_found, net_port_init, net_port_start,
  net_port_close,
}
use grpc_server.Ports.Named.{print_into, init_struct_tap_port, init_struct_af_xdp_port}
use grpc_server.Ports.Trio.{
  init_slot, start_slot, close_slot, any_fails, init_ports, start_ports, close_ports,
}
use grpc_server.RteHash.{find}
use grpc_server.Save.{save_rows, copy_data_from_hash_to_snapshot, save_snapshot, save_all_cache}
use grpc_server.Save.Caches.{
  init_tables, load_cache, init_cache, close_sqlite, ip_key_of_text, save_all_cache_to_sqlite,
  init_dns_cache, save_all_cache_ip_to_sqlite, init_ip_cache,
}
use grpc_server.Save.Caches.Released.{free_store}
use grpc_server.Worker.Counters.{increment_counter, push_totals, flush_local_counters}
use grpc_server.Worker.Loop.{
  local_policy, forward_to_out, flush_counters, check_timers, check_policy_time, check_metrics_time,
  apply_answers, move_packets, main_loop_round, main_loop_rounds, main_loop,
}
use grpc_server.Worker.Program.{Exit, exit_code, Left, construct, serve, run_worker, main}
use grpc_server.Worker.Start.{init_devices, init_with_pool, init_dpdk, end_caches, destroy}
use grpc_server.Worker.Policy.{request_policy}
use grpc_server.Load.{load_rows}
use grpc_server.Base.Run.{Run, done, fault, no_fuel}
use grpc_server.Cache.Sample.{sample_heap}
use grpc_server.Packets.Sample.{env}
use grpc_server.Save.Sample.{sqlite}
use grpc_server.Worker.Sample.{pton, counter, collector}
use grpc_server.Worker.Program.Sample.{services, settings, session}

-- the exit code of a run that touches live objects alone
abbrev exit_of : Run (Exit × Option (Left sqlite sample_hash counter)) → Option Exit
exit_of (done (exit, left)) = some exit
exit_of fault = none
exit_of no_fuel = none

run_exits :
    exit_of (
      main env services pton
        (λ text. some (length text))
        1
        settings
        session
        collector
        sample_heap
        sample_heap)
    ≡ some (exit_code 0)
unfolding c_str memcmp_eq strcmp_eq starts_nul alloc_node alloc_key free_node free_key lookup_cache
    insert_key add_to_cache free_entries remove is_full add_first key_bytes ip_str_to_key
    lookup_ip_cache add_to_ip_cache read_text read_number is_cpu read_cpus open_cpus lookup_result
    decide_ip decide_domain remember_ip remember_domain on_ip_result on_domain_result process_ip
    process_domain unless_exception process_packet process_all pakage_processing write_bytes
    learn_neighbor_mac rewrite_ipv4 rewrite_packet send_packet forward_packet_with_rewrite
    package_sending_decision port_in_list check_is_exception read16 read32 read_bytes has parse_l4
    parse_l3 parse_dns parsing_pakage find_port_from find_port_by_dev_name set_up set_up_found
    net_port_init net_port_start net_port_close print_into init_struct_tap_port
    init_struct_af_xdp_port init_slot start_slot close_slot any_fails init_ports start_ports
    close_ports find save_rows copy_data_from_hash_to_snapshot save_snapshot save_all_cache
    init_tables load_cache init_cache close_sqlite ip_key_of_text save_all_cache_to_sqlite
    init_dns_cache save_all_cache_ip_to_sqlite init_ip_cache free_store increment_counter
    push_totals flush_local_counters local_policy forward_to_out flush_counters check_timers
    check_policy_time check_metrics_time apply_answers move_packets main_loop_round main_loop_rounds
    main_loop construct serve run_worker main init_devices init_with_pool init_dpdk end_caches
    destroy request_policy load_rows
run_exits = refl
