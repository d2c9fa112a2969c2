-- ===== src/Drivers.antt =====
-- Three kernel modules: the character device of module5/04, the file /proc/mydata of module5/02 and the
-- keyboard lights of module5/03. Numbers are natural numbers, since all counts are cut to the buffers.
pub mod CharDevice
pub mod ProcFile
pub mod Leds
pub mod Loading
mod Examples
