-- ===== src/Lib.antt =====
-- KnockoutKraken: the host driver and the simulator of an FPGA that runs ARM threads.
--
-- The host program links with regression/src/client. fpga_interface.c moves thread states, pages and
-- messages by five calls, those of fpga.h; fpga_rtl.c makes them requests over two Unix sockets, one
-- for words (AXI-Lite) and one for bytes (AXI); fpga_aws.c makes them calls of the AWS library.
-- The simulator, regression/src/server, answers the sockets: each has an IPCServer and a thread, a
-- third thread serves the DRAM port of the design, and the main thread advances the Verilated design
-- by one clock whenever all threads have come back to waitForTick. The threads share the object TopDUT
-- under one mutex.
--
-- Files:
--   Base        numbers, lists, bytes and tests; Base/Monad is a C call with its return code.
--   Socket      the socket calls of the system, a parameter, and the laws of a connected stream.
--   Wire        the request structs of client/ipc.h and server/ipc.hh as bytes.
--   Client/Ipc         client/ipc.c: initIPC is init_ipc, sendIPC send_ipc, recvIPC recv_ipc.
--   Client/Fpga        client/fpga.h: the five calls as a record, which fpga_rtl.c fills.
--   Client/Rtl         client/fpga_rtl.c, and writeSimCtrl of client/fpga_interface.c.
--   Client/Aws         client/fpga_aws.c over the AWS library, which is a parameter.
--   Client/Message     client/fpga_interface.h: the message union by its words, and its makers.
--   Client/Interface   client/fpga_interface.c over any device; Registers, Pages and Waiting say what
--                      they need of the device as records of laws.
--   Server/Ipc         server/ipc.cc: getRequestAXIL, getRequestAXI, reply and the connection.
--   Server/Dut         server/dut.cc and dut.hh: the operations of TopDUT, each as what happens
--                      between taking the mutex and releasing it or waiting.
--   Server/Dut/Barrier the threads in any interleaving, with the main thread of server/main.cc.
--   Server/Ports       the ports of the generated top module that the simulator uses.
--   Server/Routine     server/subroutine.cc: the macros TICK and CHECK and the waiting loops; Dram is
--                      handleDRAMSubroute, Axil is AXILRoutine, Axi is AXIRoutine. Protocol says what
--                      it is that the design follows a protocol at a port; Axil/Slave, Axi/Slave and
--                      Dram/Master are the protocols of the three ports.
--   Server/Start       server/main.cc: the signal handler and main up to its loop.
--   Client/Test        client/test-helpers.cc and client/main.cpp: Cases are the test cases without a
--                      program, Programs those that run a.bin. HostControl, LoadStore and Stress are the
--                      files of client/tests, States its asm/asm_helpers.c.
--   Link               the driver of the client connected to the routines of the simulator: Refinement
--                      for bytes in the DRAM, Pages for the pages of the client interface there, Registers for
--                      words in the registers of the design, Transplants for thread states there,
--                      Bursts for a page that the design stores and the client fetches.
--                      While the client waits for an answer the simulator may go on, but for the
--                      registers only by the ticks of the transaction, and the DRAM is then written
--                      by the AXI routine alone.
--   Example            example/: SyncClock is fuck_routine.cc, Garbage the server and the client.
--   Client/Examples, Server/Examples, Link/Tests, Example/Tests   the results at concrete devices,
--                      sockets and designs.
--
-- A function of the source keeps its name in lower case with underscores: transplant_pushState is
-- transplant_push_state. A method takes its object and gives it back. An out parameter is part of the
-- result, and a C call that fails keeps what it has written by then.
--
-- Numbers are natural numbers; a C integer wraps by u32 and u64 where the source computes in 32 or 64
-- bits. Memory is bytes, little-endian; an array of words is its bytes.
--
-- Fuel: each loop that waits for something takes fuel, and runs out only when what it waits for has not
-- come. A transfer needs one unit for each byte and for each call that transfers nothing. The request
-- loops of the server need one for each byte of the struct, and are given that. A poll of n zeros needs
-- n + 1. The mask of the DRAM is found with 65, one more than the bits of its size.
--
-- The routines are given more fuel than the ticks for which the design keeps a channel waiting.
--
-- Parameters: the socket calls, the AWS library, the Verilated design with its ports, and, for a
-- routine, all that happens between two ticks.
--
-- Not modelled: trace files and printed lines, the destructor and closeSimulation of TopDUT, which end
-- the trace; Catch2, of which there is a copy in client/catch.hpp, and the programs in client/tests/asm;
-- the hardware, which is Scala.
pub mod Base
pub mod Socket
pub mod Wire
pub mod Client
pub mod Server
pub mod Link
pub mod Example
