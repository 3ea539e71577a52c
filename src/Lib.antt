-- ===== src/Lib.antt =====
-- PARD-gem5: a model of the hardware that PARD adds to the gem5 simulator, and what holds of it.
--
-- PARD lets one machine serve several domains. Each packet bears a DSid, the number of the domain it
-- works for; control planes hold tables that say what each DSid may have, and a platform resource
-- manager programs them over a network of its own. The modules follow the repository's directories:
--
--   Prm         src/prm: ControlPlane.hh (addresses, the interface of a plane), CPConnector.cc (the
--               registers in front of one plane), CPAdaptor.cc (the manager's PCI device). Prm/Rows and
--               Prm/Tables are what the planes' table code has in common.
--   SystemCp    src/arch/x86/pardg5v_system_cp.cc: the processors' and memory's control plane. It
--               fills the contract IsTable, so Prm/ReadBack holds of it.
--   IoHubCp     src/dev/pard/iohub_cp.cc: who owns which PCI device.
--   IoHub       src/dev/pard/iohub.cc: remapAddr, which devices a domain reaches, by that plane's mask;
--               IoHub/Bars has startup, which gives each base address register a window, and
--               hookPciAccess, which hides these windows behind the addresses a domain writes.
--   Dma         src/dev/pard/dma_device.cc: the DMA port of a device. Dma/World is the port among
--               its peers in timing mode, one step for each call or event; Dma/Atomic is the other mode.
--   SystemXBar  src/mem/pard_system_xbar.cc: the processors' crossbar and its fixed ranges.
--   RangeMap    gem5's AddrRangeMap as an interface with its laws, for the crossbar and the hub.
--   IoApic      src/dev/cellx/i82094ax.cc: the interrupt controller that all domains share.
--   IchCp       src/dev/cellx/ich_cp.cc: the south bridge's control plane; IchCp/Lines follows an
--               interrupt from a pin of the I/O APIC through its table to the local APICs.
--   Tools       system/utils/ich: the guest's tool that registers a domain in that plane and maps its
--               interrupt lines, over the contract RowTable, which Tools/IchPlane fills.
--               Tools/Loader is system/utils/biosbuilder.c, which writes the firmware into the system
--               control plane and makes the first row valid.
--   Mem         src/mem: pard_mem_ctrl.cc, tag_addr_mapper.cc, tag_xbar.cc and the packet with the DSid
--               that patch/patch.stable_2014_12_14 adds.
--   Bridge      src/mem/tag_bridge.cc: the buffered bridge that stamps requests. Bridge/Protocol is
--               the bridge among its peers, one step for each call or event.
--   XBridge     src/ext/xbridge.cc: the same bridge without the stamp.
--   Bytes       little-endian words in a block of bytes, for the packed structures.
--   Prelude     names that all modules share, Boolean tests, lists over native numbers, and the
--               outcome of code that may stop the simulator (Prelude/Faults).
--   Tests       the theorems at concrete inputs.
--
-- State is passed explicitly: an operation takes the state and returns the new one, in Result where an
-- assertion, a panic, a null pointer or an access outside an array can stop it. Numbers are natural
-- numbers, with the wrap of the machine's width written out where a sum or difference can reach it.
-- gem5 itself is not in the repository: the peers' answers to sendTiming…, sendAtomic and
-- sendFunctional, the time and the clock edge, checkFunctional, the I8259's vector and the local
-- APICs, the chunks of a DMA transfer, findPort, the crossbar's layers and snoop filter, and what a PCI
-- device answers at its registers are arguments. Each recursion is on a list or a number; only the tool's
-- searches run on fuel, and the rows of the table and one more are enough.
--
-- Not modelled: debug output and labels, port wiring and address ranges, serialisation; PCI
-- configuration space inside the devices; the UART, IDE and Ethernet devices; the guest's kernel
-- modules and other tools; configuration and build scripts.
pub mod Prelude
pub mod Bytes
pub mod Prm
pub mod SystemCp
pub mod IoHubCp
pub mod IoHub
pub mod Mem
pub mod Bridge
pub mod XBridge
pub mod IoApic
pub mod IchCp
pub mod Dma
pub mod RangeMap
pub mod SystemXBar
pub mod Tools
mod Tests
